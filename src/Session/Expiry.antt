-- ===== src/Session/Expiry.antt =====
-- How long a session is found.
use mirror_backend.Common.{ℕ, ◌≤◌, String, true, ◌≡◌, arith}
use mirror_backend.Session.{Tokens, new_session, stored, passes_expire_filter}

-- The row of a session passes the expire filter at the session's creation and at every later time:
-- the filter asks for an expire time that is at most three months ahead, which it always is.
pub new_session-never_expires :
    (tokens : Tokens) (created later user_id : ℕ) (random : String)
    → created ≤ later
    → passes_expire_filter later (stored (new_session tokens created random user_id)) ≡ true
unfolding passes_expire_filter stored new_session
new_session-never_expires tokens created later user_id random h = ground arith
