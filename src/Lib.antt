-- ===== src/Lib.antt =====
-- Mirror backend: a model of the server of a customer data platform, which holds tenants, their users,
-- tags and segments of people, and mails campaigns to the people of a segment.
--
-- How the parts interact. A request passes the session middleware (pkg/router/session.go), which finds
-- the user, the tenant and the role of the session that its cookie names, and then a handler, which
-- validates the request's struct (pkg/validator, handler/validator.go). A segment is a tree of lookups
-- on tags; it is validated against the tags, kept, and translated to the search engine's query
-- language (repo/query.go) when its people are downloaded. A job (job/run_campaigns) downloads the
-- people of each pending campaign, splits them among the campaign's emails by ratio, and sends the
-- mails in batches. A second job (job/run_file_upload_tasks) writes the tag values of uploaded files.
-- Making a tenant (handler/tenant.go) makes its roles and, by the handler of users (handler/user.go),
-- its first users, in one transaction.
--
-- Which file models what:
-- - Common and the files below it: names of the libraries passed on, Boolean tests, results, lists.
-- - Text: strings.Split, %d and strconv.Atoi. Value: JSON values and fmt.Sprint. Slices: Go's s[a:b].
-- - Action: the shape of a handler's method, a function from the world to a value or an error and the
--   world that is left, and RunTx of repo/orm.go. Action.Atomic: what is known of an action that reads
--   only, and of a transaction, which gorm is relied on to roll back.
-- - Goutil: pkg/goutil/util.go (ContainsStr, RemoveStrDuplicates; IsStrArrEqual in Goutil.Sorting) and pkg/goutil/ptr.go (AtLeastOne,
--   AtMostOne, MustHaveOne).
-- - Entity.Ud, Tag, Campaign, Tenant, User, Role, Activation, Task: entity/ud_tag.go, tag.go,
--   campaign.go, tenant.go with sender.go, user.go (Entity.User.Creation is NewUser), role.go,
--   activation.go and task.go. An update takes the time and returns the new value with the
--   Boolean that the method returns.
-- - Query: entity/segment.go. Query.Validate: queryValidator of handler/validator.go. Query.Elastic:
--   buildElasticQuery of repo/query.go. Query.Elastic.Meaning holds the abstract view: which documents
--   a query means, over a search engine given by what
--   its term, range, terms and bool clauses match.
-- - Validator: pkg/validator/validator.go, the rules for scalars; Validator.Form: Validate of forms and
--   slices; Validator.Requests: the validators that handler/validator.go puts together.
-- - Session: entity/session.go, repo/session.go and repo/cache.go; Session.Middleware:
--   pkg/router/session.go. The state is the table and the cache, passed explicitly.
-- - Repo.Filter: repo/filter.go. Repo.Page: GetMany of repo/orm.go. Repo.Role: the rows of repo/role.go.
-- - Handler.Values: handler/context.go and the fields of requests. Handler.Campaign: CreateCampaign of
--   handler/campaign.go. Handler.Users: LogIn, LogOut and Me of handler/user.go; Handler.Users.Init:
--   InitUser; Handler.Users.Creation: CreateUsers, with the mails of its goroutine in Invitations.
--   Handler.Roles: handler/role.go. Handler.Tenants: handler/tenant.go, with CreateTenant in
--   Handler.Tenants.Founding.
-- - Job.Campaign.Buckets and Batches: the two splits of job/run_campaigns/job.go. Job.Campaign.Task: the
--   state of a campaign's goroutine, with the trace of what it did, and the actions on it.
--   Job.Campaign.Run: the goroutine's body.
-- - Job.Upload: the split of a file's rows in job/run_file_upload_tasks/job.go. Job.Upload.Loop: the loop
--   of a task, one turn at a time, and the states that it may come to.
-- - Examples: runs at small inputs.
--
-- Conventions. Numbers are naturals; a conversion that wraps is written out with a modulus. A pointer is
-- an option, an error is a value, and a panic is a value of its own (none, or a constructor). Functions
-- that the code calls in other packages are fields of a record: the search engine, the floats, the
-- table, the cache, the repositories of the middleware and of the handlers, the clock, the random
-- source, bcrypt, and the services of the campaign job. A handler's world is one that these functions
-- choose; a part of it is the database, which a transaction rolls back.
--
-- Fuel. The download loop of a campaign runs on fuel, the number of pages that it may ask for, as
-- nothing in the code bounds them; Job.Campaign.Run.Download shows how much is enough. The loop over
-- batches takes the length of the bucket and one more.
--
-- Not modelled: the HTTP clients of the search engine and of the mail service, the database behind SQL,
-- logging, the message queue, the handlers that only pass on what a repository answers, the worker
-- pools of the two jobs with the goroutines that apply reported statuses (a report of the campaign job
-- is an event of its trace, one of the upload job stays in the state of its loop), that two roles of an
-- update may be one object, a nil pointer among the users with which a tenant is made, pointers in
-- fields of interface type, and that entries of the cache run out.
pub mod Common
pub mod Text
pub mod Value
pub mod Slices
pub mod Goutil
pub mod Action
pub mod Entity
pub mod Query
pub mod Validator
pub mod Session
pub mod Repo
pub mod Handler
pub mod Job
pub mod Examples
