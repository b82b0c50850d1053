-- ===== src/Auth/Sessions.antt =====
-- Refreshing and ending sessions. modules/auth/auth.service.ts
use fsm_backend.Prelude.{
  truthy, [], ℕ, String, Bool, false, not, Option, none, some, str_eq, if◌then◌else◌, [],
}
use fsm_backend.Errors.{
  Thrown, app, prisma, plain, Result, ok, err, M, ◌>>=◌, ◌>>◌, return, throw, gets, commit,
}
use fsm_backend.Prisma.{Database, unordered}
use fsm_backend.Auth.Types.{Session, Store, Env, Minted}
use fsm_backend.Auth.Tokens.{
  hash_token, decode_refresh, mint_session_tokens, token_equals_hash, RefreshClaims, verify_refresh,
  Libraries,
}

abbrev pub refresh_required : Thrown
refresh_required =
    app
      (record { message = "Refresh token required"; status_code = 400; code = "REFRESH_REQUIRED" })

abbrev pub session_invalid : Thrown
session_invalid =
    app (record { message = "Invalid session"; status_code = 401; code = "SESSION_INVALID" })

abbrev pub refresh_reuse : Thrown
refresh_reuse =
    app (record { message = "Invalid token"; status_code = 401; code = "REFRESH_REUSE" })

-- `data: { valid: false, token: "" }`
abbrev pub revoked : Session → Session
revoked r = record r { valid = false; token = "" }

abbrev pub with_token : String → Session → Session
with_token token r = record r { token = token }

-- `err.code === "SESSION_EXPIRED"` for an error of the service.
abbrev pub is_session_expired : Thrown → Bool
is_session_expired (app e) = str_eq e.code "SESSION_EXPIRED"
is_session_expired (prisma e) = false
is_session_expired (plain m) = false

module _ (p : Database) where
  -- `session.updateMany` with a `where` clause.
  abbrev pub revoke_sessions : (Session → Bool) → Store p → Store p
  revoke_sessions w s = record s { sessions = (p.update_many w revoked s.sessions).0 }

  unfoldable pub logout_all : String → M (Store p) ℕ
  logout_all user_id s = (
    ok (p.update_many (λ r. str_eq r.user_id user_id) revoked s.sessions).1,
    revoke_sessions (λ r. str_eq r.user_id user_id) s,
  )

module _ (p : Database) (x : Libraries) (env : Env) where
  -- `session.update` by id.
  unfoldable pub update_session : String → (Session → Session) → M (Store p) (Unit {0})
  update_session id f s =
      commit s (λ t. record s { sessions = t }) (p.update [] (λ r. str_eq r.id id) f s.sessions)

  rotate : String → RefreshClaims → Session → M (Store p) Minted
  rotate incoming c session =
      if not (token_equals_hash x incoming session.token)
      then (λ s. (err refresh_reuse, revoke_sessions p (λ r. str_eq r.user_id session.user_id) s))
      else do
        let minted = mint_session_tokens x env c.sub c.sid
        update_session c.sid (with_token (hash_token x minted.refresh_token))
        return minted

  refresh_found : String → RefreshClaims → Option Session → M (Store p) Minted
  refresh_found incoming c none = throw session_invalid
  refresh_found incoming c (some session) =
      if not session.valid then throw session_invalid else rotate incoming c session

  -- The `catch` around `verifyRefresh`.
  expire : Option String → Thrown → M (Store p) Minted
  expire none e s = (err e, s)
  expire (some sid) e s =
      (err e, if is_session_expired e then revoke_sessions p (λ r. str_eq r.id sid) s else s)

  refresh_verified : String → Result RefreshClaims → M (Store p) Minted
  refresh_verified incoming (err e) =
      expire (truthy (elim (decode_refresh x incoming) [ none ↦ none | some c ↦ some c.sid ])) e
  refresh_verified incoming (ok c) = do
    session ← gets λ s. p.find_first unordered (λ r. str_eq r.id c.sid) s.sessions
    refresh_found incoming c session

  unfoldable pub refresh : String → M (Store p) Minted
  unfolding rotate refresh_found expire refresh_verified
  refresh incoming =
      if str_eq incoming ""
      then throw refresh_required
      else refresh_verified incoming (verify_refresh x env.now incoming)

  -- `catch { }`: whatever was thrown, the function returns.
  abbrev pub swallow : Result (Unit {0}) × Store p → Result (Unit {0}) × Store p
  swallow (r, s) = (ok tt, s)

  logout_verified : Result RefreshClaims → M (Store p) (Unit {0})
  logout_verified (err e) = throw e
  logout_verified (ok c) = update_session c.sid revoked

  unfoldable pub logout : String → M (Store p) (Unit {0})
  unfolding logout_verified
  logout incoming s =
      if str_eq incoming ""
      then (ok tt, s)
      else swallow (logout_verified (verify_refresh x env.now incoming) s)
