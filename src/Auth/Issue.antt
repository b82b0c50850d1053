-- ===== src/Auth/Issue.antt =====
-- Making one-time tokens, and listing sessions. modules/auth/auth.service.ts
use fsm_backend.Prelude.{
  if◌then◌else◌, ℕ, zero, suc, ◌+◌, String, Bool, true, false, Option, none, some, map, List,
  str_eq,
}
use fsm_backend.Errors.{
  Thrown, app, prisma, plain, p2002, p2025, Result, ok, err, M, ◌>>=◌, return, gets, transaction,
}
use fsm_backend.Prisma.{Database, unordered, descending}
use fsm_backend.Auth.Types.{User, Session, OneTimeToken, Store, Env, AuthConfig, token_unique}
use fsm_backend.Auth.Tokens.{hash_token, Libraries}
use fsm_backend.Auth.OneTime.{spent, is_unused_of}

-- `err?.code === "P2002"`
abbrev pub is_p2002 : Thrown → Bool
is_p2002 (prisma (p2002 target)) = true
is_p2002 (prisma p2025) = false
is_p2002 (app e) = str_eq e.code "P2002"
is_p2002 (plain m) = false

pub record SessionSummary : Type 0 where
  pub id : String
  pub created_at : ℕ
  pub valid : Bool
  pub current : Bool

-- `currentSessionId != null && session.id === currentSessionId`
abbrev pub is_current : Option String → Session → Bool
is_current none r = false
is_current (some id) r = str_eq r.id id

abbrev pub summary : Option String → Session → SessionSummary
summary current r = record {
  id = r.id;
  created_at = r.created_at;
  valid = r.valid;
  current = is_current current r;
}

module _ (p : Database) where
  unfoldable pub list_sessions : String → Option String → M (Store p) (List SessionSummary)
  list_sessions user_id current = do
    sessions ←
        gets λ s.
          p.find_many (descending (λ r. r.created_at)) (λ r. str_eq r.user_id user_id) s.sessions
    return (map (summary current) sessions)

module _ (p : Database) (x : Libraries) (env : Env) where
  abbrev pub new_token : String → ℕ → ℕ → OneTimeToken
  new_token user_id expires_at attempt = record {
    id = env.token_id attempt;
    user_id = user_id;
    token_hash = hash_token x (env.random_token attempt);
    expires_at = expires_at;
    used_at = none;
    created_at = env.now;
  }

  abbrev pub or_retry :
      String
      → Result (p.Table OneTimeToken)
      → Result (String × p.Table OneTimeToken)
      → Result (String × p.Table OneTimeToken)
  or_retry raw_token (ok t) rest = ok (raw_token, t)
  or_retry raw_token (err e) rest = if is_p2002 e then rest else err e

  -- The loop: `room` more attempts, the next of them the `attempt`-th.
  unfoldable pub try_create :
      String → String → ℕ → ℕ → ℕ → p.Table OneTimeToken → Result (String × p.Table OneTimeToken)
  try_create message user_id expires_at zero attempt t = err (plain message)
  try_create message user_id expires_at (suc room) attempt t =
      or_retry (env.random_token attempt)
        (p.create token_unique (new_token user_id expires_at attempt) t)
        (try_create message user_id expires_at room (suc attempt) t)

  abbrev pub keep_token :
      Store p
      → (p.Table OneTimeToken → Store p)
      → Result (String × p.Table OneTimeToken)
      → Result String × Store p
  keep_token s put (ok (raw_token, t)) = (ok raw_token, put t)
  keep_token s put (err e) = (err e, s)

  unfoldable pub create_verification_token : AuthConfig → String → M (Store p) String
  create_verification_token auth user_id s =
      let t = (p.update_many (is_unused_of user_id) (spent env.now) s.verification_tokens).0 in
      let s1 : Store p = record s { verification_tokens = t } in
      keep_token s1 (λ u. record s1 { verification_tokens = u })
        (try_create "Unable to create verification token" user_id
          (env.now + auth.email_verification_ttl_ms) 5 0 t)

  unfoldable pub create_password_reset_token : AuthConfig → String → M (Store p) String
  create_password_reset_token auth user_id s =
      let t = (p.update_many (is_unused_of user_id) (spent env.now) s.reset_tokens).0 in
      let s1 : Store p = record s { reset_tokens = t } in
      keep_token s1 (λ u. record s1 { reset_tokens = u })
        (try_create "Unable to create password reset token" user_id
          (env.now + auth.password_reset_ttl_ms) 5 0 t)

  reset_for : AuthConfig → Option User → M (Store p) (Option String)
  reset_for auth none = return none
  reset_for auth (some user) = do
    token ← transaction (create_password_reset_token auth user.id)
    return (some token)

  -- Sending the email is left out.
  unfoldable pub request_password_reset : AuthConfig → String → M (Store p) (Option String)
  unfolding reset_for
  request_password_reset auth email = do
    user ← gets λ s. p.find_first unordered (λ u. x.equals_insensitive u.email email) s.users
    reset_for auth user
