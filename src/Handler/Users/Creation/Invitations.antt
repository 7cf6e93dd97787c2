-- ===== src/Handler/Users/Creation/Invitations.antt =====
-- The goroutine of `CreateUsers` of handler/user.go, which mails to each pending user the link that
-- sets its password. The link, the template and the mail service are parameters.
use mirror_backend.Common.{String, Option, none, some, List, [], ◌∷◌, get_or, ◌>>=◌}
use mirror_backend.Action.{Action, Failure}
use mirror_backend.Entity.Activation.{Activation}
use mirror_backend.Entity.User.{User, Role}
use mirror_backend.Handler.Users.Creation.{get_email}

-- SendSmtpEmail, with one receiver
pub record SendSmtpEmail : Type 0 where
  pub from : String
  pub to : String
  pub subject : String
  pub html_content : String

abbrev Vars : Type 0
Vars = List (String × String)

pub record Mailer (W E : Type 0) : Type 0 where
  pub internal_sender : String
  -- goutil.BuildURL at the configured page, by the parameters of the URL
  pub build_url : Vars → Option String
  pub execute : Vars → Option String
  pub send_email : SendSmtpEmail → Action W (Failure E) Unit

abbrev role_name : Option Role → String
role_name none = ""
role_name (some role) = get_or "" role.name

module _ {W E : Type 0} (mailer : Mailer W E) (tenant_name : String) where
  open mailer use {internal_sender, build_url, execute, send_email}

  -- `none` where the link or the content is not built
  unfoldable pub invitation : User → Activation → Option SendSmtpEmail
  invitation user act = build_url (("token", get_or "" act.token) ∷ []) >>= λ link.
      execute (
        ("username", get_or "" user.username)
        ∷ ("tenant_name", tenant_name)
        ∷ ("role", role_name user.role)
        ∷ ("init_user_link", link)
        ∷ [])
      >>= λ content. some (record {
        from = internal_sender;
        to = get_email user;
        subject = "Welcome to Mirror!";
        html_content = content;
      })

  -- A failed mail is logged, and the loop goes on.
  abbrev try_send : Option SendSmtpEmail → W → W
  try_send none w = w
  try_send (some mail) w = (send_email mail w).1

  unfoldable pub send_invitations : List (User × Activation) → W → W
  unfolding invitation
  send_invitations [] w = w
  send_invitations ((user, act) ∷ rest) w = send_invitations rest (try_send (invitation user act) w)
