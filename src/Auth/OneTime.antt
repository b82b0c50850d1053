-- ===== src/Auth/OneTime.antt =====
-- The tokens that verify an email or reset a password. modules/auth/auth.service.ts
use fsm_backend.Auth.Sessions.{revoke_sessions}
use fsm_backend.Prelude.{
  [], ℕ, String, Bool, not, ◌&&◌, Option, none, some, is_some, str_eq, if◌then◌else◌, leb, [],
}
use fsm_backend.Errors.{
  Thrown, app, Result, ok, err, M, ◌>>=◌, ◌>>◌, return, throw, gets, commit, transaction,
}
use fsm_backend.Prisma.{Database, unordered}
use fsm_backend.Auth.Types.{User, OneTimeToken, Store, Env}
use fsm_backend.Auth.Tokens.{hash_token, Libraries}

abbrev pub token_error : String → String → Thrown
token_error message code = app (record { message = message; status_code = 400; code = code })

abbrev pub password_reset_invalid : Thrown
password_reset_invalid = token_error "Invalid reset token" "PASSWORD_RESET_INVALID"

abbrev pub password_reset_expired : Thrown
password_reset_expired = token_error "Reset token expired" "PASSWORD_RESET_EXPIRED"

abbrev pub email_verification_invalid : Thrown
email_verification_invalid = token_error "Invalid verification token" "EMAIL_VERIFICATION_INVALID"

abbrev pub email_verification_expired : Thrown
email_verification_expired = token_error "Verification token expired" "EMAIL_VERIFICATION_EXPIRED"

abbrev pub spent : ℕ → OneTimeToken → OneTimeToken
spent now r = record r { used_at = some now }

-- `where: { userId, usedAt: null }`
abbrev pub is_unused_of : String → OneTimeToken → Bool
is_unused_of user_id r = str_eq r.user_id user_id && not (is_some r.used_at)

abbrev pub ignore : {S : Type 0} → Result (Unit {0}) × S → Thrown → Result (Unit {0}) × S
ignore (r, s) e = (err e, s)

module _ (p : Database) (x : Libraries) (env : Env) where
  -- `passwordResetToken.update` and `passwordResetToken.updateMany`
  unfoldable pub spend_reset : String → M (Store p) (Unit {0})
  spend_reset id s =
      commit s (λ t. record s { reset_tokens = t })
        (p.update [] (λ r. str_eq r.id id) (spent env.now) s.reset_tokens)

  abbrev pub spend_resets : String → M (Store p) (Unit {0})
  spend_resets user_id s = (
    ok tt,
    record s {
      reset_tokens = (p.update_many (is_unused_of user_id) (spent env.now) s.reset_tokens).0;
    },
  )

  unfoldable pub write_user : String → (User → User) → M (Store p) (Unit {0})
  write_user id f s =
      commit s (λ t. record s { users = t }) (p.update [] (λ r. str_eq r.id id) f s.users)

  reset_with : String → OneTimeToken → M (Store p) (Unit {0})
  reset_with password_hash r = do
    spend_reset r.id
    spend_resets r.user_id
    write_user r.user_id (λ u. record u { password = password_hash })
    (λ s. (ok tt, revoke_sessions p (λ t. str_eq t.user_id r.user_id) s))

  reset_found : String → Option OneTimeToken → M (Store p) (Unit {0})
  reset_found password none = throw password_reset_invalid
  reset_found password (some r) =
      if is_some r.used_at
      then throw password_reset_invalid
      else if leb r.expires_at env.now
      then (λ s. ignore (spend_reset r.id s) password_reset_expired)
      else transaction (reset_with (x.argon2_hash password) r)

  unfoldable pub reset_password : String → String → M (Store p) (Unit {0})
  unfolding reset_with reset_found
  reset_password token password = do
    r ←
        gets
          λ s. p.find_first unordered (λ r. str_eq r.token_hash (hash_token x token)) s.reset_tokens
    reset_found password r

  unfoldable pub spend_verification : String → M (Store p) (Unit {0})
  spend_verification id s =
      commit s (λ t. record s { verification_tokens = t })
        (p.update [] (λ r. str_eq r.id id) (spent env.now) s.verification_tokens)

  abbrev pub spend_verifications : String → M (Store p) (Unit {0})
  spend_verifications user_id s = (
    ok tt,
    record s {
      verification_tokens =
          (p.update_many (is_unused_of user_id) (spent env.now) s.verification_tokens).0;
    },
  )

  verify_with : OneTimeToken → User → M (Store p) (Unit {0})
  verify_with r user = do
    (if is_some user.email_verified_at
        then return tt
        else write_user r.user_id (λ u. record u { email_verified_at = some env.now }))
    spend_verification r.id
    spend_verifications r.user_id

  -- `include: { user: true }`: the foreign key names the token's user.
  verify_user : OneTimeToken → Option User → M (Store p) (Unit {0})
  verify_user r none = throw email_verification_invalid
  verify_user r (some user) =
      if is_some r.used_at
      then throw email_verification_invalid
      else if leb r.expires_at env.now
      then (λ s. ignore (spend_verification r.id s) email_verification_expired)
      else transaction (verify_with r user)

  verify_found : Option OneTimeToken → M (Store p) (Unit {0})
  verify_found none = throw email_verification_invalid
  verify_found (some r) = do
    user ← gets λ s. p.find_first unordered (λ u. str_eq u.id r.user_id) s.users
    verify_user r user

  unfoldable pub verify_email : String → M (Store p) (Unit {0})
  unfolding verify_with verify_user verify_found
  verify_email token = do
    r ← gets λ s.
        p.find_first unordered (λ r. str_eq r.token_hash (hash_token x token)) s.verification_tokens
    verify_found r
