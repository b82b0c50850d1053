-- ===== src/Auth/BruteForce.antt =====
-- A series of wrong passwords ends in a lockout. modules/auth/auth.service.ts
use fsm_backend.Auth.Guessing.{
  record-clear, find-only, record-again, find-clear, HasFailed, IsClear,
}
use fsm_backend.Prelude.{
  ap, arith, All-mem, ◌+◌, ◌≤◌, ◌<◌, str_eq, ◌≡◌, [], ◌∷◌, inl, inr, ℕ, String, List, All, true,
  false, Option, none, some, length,
}
use fsm_backend.Errors.{Result, ok, err}
use mathlib.Core.Path.{subst}
use fsm_backend.Prisma.{Database, unordered, find_first-cases}
use fsm_backend.Auth.Types.{Minted, LoginAttempt, User, Store, AuthConfig, Env}
use fsm_backend.Auth.Tokens.{normalize_email, Libraries}
use fsm_backend.Auth.Lockout.{
  is_locked, within_window, login_locked, invalid_credentials, record_login_failure, accepts,
  ensure_login_not_locked, login, sanitize_ip, is_attempt,
}

-- A login: its clock and identifiers, and the password that it tries.
abbrev pub Guess : Type 0
Guess = Env × String

-- Each guess comes within the window of the one before it; the first one's is at `t`.
abbrev pub AreClose : ℕ → ℕ → List Guess → Type 0
AreClose window t [] = Unit
AreClose window t (g ∷ gs) = (g.0.now ≤ t + window) × AreClose window g.0.now gs

abbrev pub last_time : ℕ → List Guess → ℕ
last_time t [] = t
last_time t (g ∷ gs) = last_time g.0.now gs

module _ (p : Database) (auth : AuthConfig) (x : Libraries) (raw_email : String)
    (ip_address : Option String) where
  abbrev email : String
  email = normalize_email x raw_email

  abbrev ip : String
  ip = sanitize_ip ip_address

  abbrev pub try_password : Guess → Store p → Result Minted × Store p
  try_password (env, password) s =
      login p auth env x (record { email = raw_email; password = password }) ip_address s

  -- The logins of a list, one after the other.
  abbrev pub guess_all : List Guess → Store p → Store p
  guess_all [] s = s
  guess_all (g ∷ gs) s = guess_all gs (try_password g s).1

  -- No user of the email is let in with the password.
  abbrev pub IsWrong : p.Table User → Guess → Type 0
  IsWrong users g =
      All (λ (u : User). str_eq u.email email ≡ true → accepts auth x u g.1 ≡ false) (p.rows users)

  -- A wrong password comes to a failure on record.
  login-wrong :
      (env : Env) (password : String) (s : Store p)
      → ensure_login_not_locked p auth env email ip s ≡ (ok tt, s)
      → IsWrong s.users (env, password)
      → (user_id : Option String) × ((t : p.Table LoginAttempt)
          → record_login_failure p auth env email ip user_id s ≡ (ok tt, record s { attempts = t })
          → try_password (env, password) s ≡ (err invalid_credentials, record s { attempts = t }))
  unfolding login
  login-wrong env password s open_gate wrong =
      elim (find_first-cases p unordered (λ u. str_eq u.email email) s.users) [
        | inl (e, h) ↦ (none, λ t g. rw (open_gate, e, g))
        | inr (u, e, h, m) ↦
            let bad =
              All-mem
                (λ (u : User). str_eq u.email email ≡ true → accepts auth x u password ≡ false)
                (p.rows s.users) wrong m h in
            (some u.id, λ t g. rw (open_gate, e, bad, g))
      ]

  ensure-clear :
      (env : Env) (s : Store p)
      → IsClear p auth email ip s
      → ensure_login_not_locked p auth env email ip s ≡ (ok tt, s)
  unfolding ensure_login_not_locked
  ensure-clear env s clear = rw (find-clear p auth email ip env s clear)

  ensure-again :
      (env : Env) (k t : ℕ) (s : Store p)
      → HasFailed p auth email ip k t s
      → k < auth.login_max_attempts
      → env.now ≤ t + auth.login_attempt_window_ms
      → ensure_login_not_locked p auth env email ip s ≡ (ok tt, s)
  unfolding ensure_login_not_locked
  ensure-again env k t s (a, m, h, only, count_k, last_t, lock) below soon =
      let within : within_window auth env.now a ≡ true = ground arith in
      let unlocked : a.locked_until ≡ none = ground arith in
      rw (find-only p auth email ip env s a m h only, unlocked, within)

  -- Further wrong guesses bring the count to the maximum.
  guess_all-HasFailed :
      (gs : List Guess) (k t : ℕ) (s : Store p)
      → HasFailed p auth email ip k t s
      → k + length gs ≡ auth.login_max_attempts
      → AreClose auth.login_attempt_window_ms t gs
      → All (IsWrong s.users) gs
      → HasFailed p auth email ip auth.login_max_attempts (last_time t gs) (guess_all gs s)
  guess_all-HasFailed [] k t s h e c w =
      (let q : k ≡ auth.login_max_attempts = omega arith in
        subst (λ n. HasFailed p auth email ip n t s) q h)
  guess_all-HasFailed (g ∷ gs) k t s h e c w =
      let below : k < auth.login_max_attempts = omega arith in
      let (user_id, fails) = login-wrong g.0 g.1 s (ensure-again g.0 k t s h below c.0) w.0 in
      let (t', r, h') = record-again p auth email ip g.0 user_id k t s h below c.0 in
      let s' : Store p = record s { attempts = t' } in
      let one : guess_all (g ∷ gs) s ≡ guess_all gs s' =
        ap (λ (r : Result Minted × Store p). guess_all gs r.1) (fails t' r) in
      rw one (guess_all-HasFailed gs (k + 1) g.0.now s' h' (omega arith) c.1 w.1)

  -- As many failing logins as the configured maximum, each within the window of the one before it
  -- and the first with no failure on record, lock the email and address out: until the lockout
  -- ends a login with any password fails with LOGIN_LOCKED and changes nothing.
  pub login-guess_all :
      (g : Guess) (gs : List Guess) (s : Store p)
      → All (λ (r : LoginAttempt). is_attempt email ip r ≡ false) (p.rows s.attempts)
      → All (λ (r : LoginAttempt). str_eq g.0.attempt_id r.id ≡ false) (p.rows s.attempts)
      → length (g ∷ gs) ≡ auth.login_max_attempts
      → AreClose auth.login_attempt_window_ms g.0.now gs
      → All (IsWrong s.users) (g ∷ gs)
      → (later : Guess) → later.0.now < last_time g.0.now gs + auth.login_lockout_ms
      → try_password later (guess_all (g ∷ gs) s) ≡ (err login_locked, guess_all (g ∷ gs) s)
  unfolding login ensure_login_not_locked
  login-guess_all g gs s clear fresh e c w later soon =
      let (user_id, fails) = login-wrong g.0 g.1 s (ensure-clear g.0 s clear) w.0 in
      let (t, r, h) = record-clear p auth email ip g.0 user_id s clear fresh in
      let s1 : Store p = record s { attempts = t } in
      let (a, m, i, only, count_k, last_t, lock) =
        guess_all-HasFailed gs 1 g.0.now s1 h (omega arith) c w.1 in
      let locked : is_locked later.0.now a ≡ true = ground arith in
      rw (fails t r, find-only p auth email ip later.0 (guess_all gs s1) a m i only, locked)
