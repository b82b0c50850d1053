-- ===== src/Auth/Lockout.antt =====
-- Login and its lockout. modules/auth/auth.service.ts
use Prim.Native.String.{[], slice}
use fsm_backend.Prelude.{
  [], ◌+◌, ℕ, String, Bool, true, false, not, ◌&&◌, ◌||◌, Option, none, some, is_some, or_try,
  str_eq, if◌then◌else◌, ltb, leb,
}
use fsm_backend.Errors.{ok, Thrown, app, M, ◌>>=◌, ◌>>◌, return, throw, gets, commit}
use fsm_backend.Prisma.{Database, unordered}
use fsm_backend.Auth.Types.{
  User, Session, LoginAttempt, attempt_unique, session_unique, Store, AuthConfig, Env, Credentials,
  Minted,
}
use fsm_backend.Auth.Tokens.{hash_token, normalize_email, mint_session_tokens, Libraries}

abbrev pub login_locked : Thrown
login_locked = app (record {
  message = "Too many login attempts. Try again later.";
  status_code = 429;
  code = "LOGIN_LOCKED";
})

-- `makeLoginError`
abbrev pub invalid_credentials : Thrown
invalid_credentials =
    app
      (record { message = "Invalid credentials"; status_code = 401; code = "INVALID_CREDENTIALS" })

-- An address is ASCII, so that the bytes that `slice` counts are its characters.
abbrev pub sanitize_ip : Option String → String
sanitize_ip none = "unknown"
sanitize_ip (some ip) = if str_eq ip "" then "unknown" else slice ip 0 128

-- `lockedUntil && lockedUntil > now`
abbrev pub is_locked : ℕ → LoginAttempt → Bool
is_locked now a = elim a.locked_until [ none ↦ false | some t ↦ ltb now t ]

-- `now.getTime() - lastFailedAt.getTime() <= loginAttemptWindowMs`; the difference may be negative.
abbrev pub within_window : AuthConfig → ℕ → LoginAttempt → Bool
within_window auth now a = leb now (a.last_failed_at + auth.login_attempt_window_ms)

abbrev pub is_attempt : String → String → LoginAttempt → Bool
is_attempt email ip a = str_eq a.email_lowercase email && str_eq a.ip_address ip

-- `shouldLock ? new Date(now.getTime() + auth.loginLockoutMs) : null`
abbrev pub lock_until : AuthConfig → ℕ → ℕ → Option ℕ
lock_until auth now fail_count =
    if leb auth.login_max_attempts fail_count then some (now + auth.login_lockout_ms) else none

abbrev pub new_attempt : AuthConfig → Env → String → String → Option String → LoginAttempt
new_attempt auth env email ip user_id = record {
  id = env.attempt_id;
  user_id = user_id;
  email_lowercase = email;
  ip_address = ip;
  fail_count = 1;
  locked_until = lock_until auth env.now 1;
  first_failed_at = env.now;
  last_failed_at = env.now;
}

-- `data` of the update that starts to count again, and of the one that counts on.
abbrev pub restarted : ℕ → Option ℕ → Option String → LoginAttempt → LoginAttempt
restarted now lock user_id a = record a {
  fail_count = 1;
  first_failed_at = now;
  last_failed_at = now;
  locked_until = lock;
  user_id = or_try a.user_id user_id;
}

abbrev pub counted : ℕ → ℕ → Option ℕ → Option String → LoginAttempt → LoginAttempt
counted now fail_count lock user_id a = record a {
  fail_count = fail_count;
  last_failed_at = now;
  locked_until = lock;
  user_id = or_try a.user_id user_id;
}

-- The row that a failure writes over the one found.
abbrev pub after_failure :
    AuthConfig → ℕ → Option String → LoginAttempt → LoginAttempt → LoginAttempt
after_failure auth now user_id a =
    let within = within_window auth now a in
    let fail_count = (if within then a.fail_count + 1 else 1) in
    let lock = lock_until auth now fail_count in
    if not within || is_some a.locked_until
    then restarted now lock user_id
    else counted now fail_count lock user_id

-- `!ok || (auth.emailVerificationRequired && !user.emailVerifiedAt)`, negated
abbrev pub accepts : AuthConfig → Libraries → User → String → Bool
accepts auth x user password =
    x.argon2_verify user.password password
    && not (auth.email_verification_required && not (is_some user.email_verified_at))

module _ (p : Database) (auth : AuthConfig) (env : Env) where
  abbrev pub find_attempt : String → String → Store p → Option LoginAttempt
  find_attempt email ip s = p.find_first unordered (is_attempt email ip) s.attempts

  -- `loginAttempt.delete(…).catch(() => undefined)`
  abbrev pub clear_login_attempts : String → String → M (Store p) (Unit {0})
  clear_login_attempts email ip s =
      (ok tt, record s { attempts = (p.delete_many (is_attempt email ip) s.attempts).0 })

  check_attempt : String → String → Option LoginAttempt → M (Store p) (Unit {0})
  check_attempt email ip none = return tt
  check_attempt email ip (some a) =
      if is_locked env.now a
      then throw login_locked
      else if is_some a.locked_until || not (within_window auth env.now a)
      then clear_login_attempts email ip
      else return tt

  unfoldable pub ensure_login_not_locked : String → String → M (Store p) (Unit {0})
  unfolding check_attempt
  ensure_login_not_locked email ip = do
    attempt ← gets λ s. find_attempt email ip s
    check_attempt email ip attempt

  write_failure : String → String → Option String → Option LoginAttempt → M (Store p) (Unit {0})
  write_failure email ip user_id none s =
      commit s (λ t. record s { attempts = t })
        (p.create attempt_unique (new_attempt auth env email ip user_id) s.attempts)
  write_failure email ip user_id (some a) s =
      commit s (λ t. record s { attempts = t })
        (p.update [] (is_attempt email ip) (after_failure auth env.now user_id a) s.attempts)

  unfoldable pub record_login_failure : String → String → Option String → M (Store p) (Unit {0})
  unfolding write_failure
  record_login_failure email ip user_id = do
    attempt ← gets λ s. find_attempt email ip s
    write_failure email ip user_id attempt

  unfoldable pub create_session : Session → M (Store p) (Unit {0})
  create_session r s =
      commit s (λ t. record s { sessions = t }) (p.create session_unique r s.sessions)

  module _ (x : Libraries) where
    unfoldable pub open_session : String → M (Store p) Minted
    open_session user_id = do
      let minted = mint_session_tokens x env user_id env.session_id
      create_session (record {
        id = env.session_id;
        user_id = user_id;
        token = hash_token x minted.refresh_token;
        valid = true;
        created_at = env.now;
      })
      return minted

    log_in : String → String → String → Option User → M (Store p) Minted
    log_in email ip password none = do record_login_failure email ip none; throw invalid_credentials
    log_in email ip password (some user) =
        if accepts auth x user password
        then clear_login_attempts email ip >> open_session user.id
        else record_login_failure email ip (some user.id) >> throw invalid_credentials

    unfoldable pub login : Credentials → Option String → M (Store p) Minted
    unfolding log_in
    login input ip_address = do
      let email = normalize_email x input.email
      let ip = sanitize_ip ip_address
      ensure_login_not_locked email ip
      user ← gets λ s. p.find_first unordered (λ u. str_eq u.email email) s.users
      log_in email ip input.password user
