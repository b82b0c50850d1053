-- ===== src/Examples/Auth.antt =====
-- A user with a session; a wrong password and a refresh.
use fsm_backend.Prelude.{
  ◌⊎◌, update_where, Bool, ne_text, refl, none, [], ◌∷◌, Memᴰ, ◌≡◌, HasDistinctKeys, true, false,
  arith, All, str_eq,
}
use fsm_backend.Memory.{memory}
use fsm_backend.Errors.{Thrown, ok, err}
use fsm_backend.Auth.Types.{LoginAttempt, Store, Env, Session, AuthConfig, Minted}
use fsm_backend.Auth.Tokens.{
  hash_token, mint_session_tokens, RefreshClaims, mint_session_tokens, Libraries, claims,
  verify_refresh,
}
use fsm_backend.Auth.Lockout.{is_attempt, login_locked}
use fsm_backend.Auth.Sessions.{with_token, revoked, update_session, refresh, refresh_reuse}
use fsm_backend.Auth.BruteForce.{IsWrong, Guess, login-guess_all, try_password, guess_all}
use fsm_backend.Auth.Rotation.{refresh-cases, refresh-refresh}

abbrev pub env : Env
env = record {
  now = 1000;
  session_id = "session-2";
  jwt_id = "second";
  attempt_id = "attempt-1";
  user_id = "user-2";
  random_token = λ n. "reset";
  token_id = λ n. "token-1";
}

abbrev pub config : AuthConfig
config = record {
  email_verification_required = false;
  login_attempt_window_ms = 900;
  login_max_attempts = 2;
  login_lockout_ms = 900;
  email_verification_ttl_ms = 900;
  password_reset_ttl_ms = 900;
}

-- Libraries by which a refresh token is its `jwtid`, and a text its own hash.
abbrev pub libraries : Libraries
libraries = record {
  sign_access = λ now sub sid. sid;
  sign_refresh = λ now jwt_id c. jwt_id;
  verify_refresh_token = λ now token. claims (record { sub = "user-1"; sid = "session-1" });
  decode_token = λ token. none;
  sha256 = λ text. text;
  argon2_hash = λ plain. plain;
  argon2_verify = λ hash plain. str_eq hash plain;
  trim = λ text. text;
  to_lower_case = λ text. text;
  equals_insensitive = λ a b. str_eq a b;
}

abbrev pub store : Store memory
unfolding memory
store = record {
  users =
      record {
        id = "user-1";
        email = "ada@example.org";
        password = "right";
        email_verified_at = none;
        created_at = 1;
      }
      ∷ [];
  sessions =
      record { id = "session-1"; user_id = "user-1"; token = "first"; valid = true; created_at = 1 }
      ∷ [];
  attempts = [];
  verification_tokens = [];
  reset_tokens = [];
}

abbrev guess : Guess
guess = (env, "wrong")

abbrev refreshed : Store memory
refreshed = (refresh memory libraries env "first" store).1

sessions-distinct : HasDistinctKeys (λ (r : Session). r.id) (memory.rows store.sessions)
unfolding memory
sessions-distinct = (tt, tt)

abbrev minted : Minted
minted = record { access_token = "session-1"; refresh_token = "second" }

refresh_works : refresh memory libraries env "first" store ≡ (ok minted, refreshed)
unfolding memory refresh verify_refresh mint_session_tokens update_session
refresh_works = refl

no_failure :
    All
      (λ (r : LoginAttempt). is_attempt "ada@example.org" "unknown" r ≡ false)
      (memory.rows store.attempts)
unfolding memory
no_failure = tt

fresh_id : All (λ (r : LoginAttempt). str_eq "attempt-1" r.id ≡ false) (memory.rows store.attempts)
unfolding memory
fresh_id = tt

wrong : IsWrong memory config libraries "ada@example.org" none store.users guess
unfolding memory
wrong = ((λ e. refl), tt)

login-guess_all_example :
    try_password memory config libraries "ada@example.org" none
      (env, "right")
      (guess_all memory config libraries "ada@example.org" none (guess ∷ guess ∷ []) store)
    ≡ (
      err login_locked,
      guess_all memory config libraries "ada@example.org" none (guess ∷ guess ∷ []) store,
    )
login-guess_all_example =
    login-guess_all memory config libraries "ada@example.org" none guess (guess ∷ []) store
      no_failure fresh_id refl (omega arith, tt) (wrong, (wrong, tt)) (env, "right") (omega arith)

refresh-refresh_example :
    (r : Session) × Memᴰ r (memory.rows store.sessions)
    × ("first" ≡ r.token)
    × ((refresh memory libraries env "first" refreshed).0 ≡ err refresh_reuse)
    × All
        (λ q. q.user_id ≡ r.user_id → q.valid ≡ false)
        (memory.rows (refresh memory libraries env "first" refreshed).1.sessions)
refresh-refresh_example =
    refresh-refresh memory libraries env env "first" store refreshed minted sessions-distinct
      refresh_works refl (ne_text "first" "second" refl)

refresh-cases_example :
    ((e : Thrown) × ((refresh memory libraries env "first" store).0 ≡ err e)
      × (w : Session → Bool) × (memory.rows (refresh memory libraries env "first" store).1.sessions
          ≡ update_where w revoked (memory.rows store.sessions))
      × ((refresh memory libraries env "first" store).1
          ≡ record store { sessions = (refresh memory libraries env "first" store).1.sessions }))
    ⊎ ((c : RefreshClaims) × (r : Session) × (t : memory.Table Session) × (verify_refresh libraries
            1000 "first"
          ≡ ok c)
        × Memᴰ r (memory.rows store.sessions)
        × (r.id ≡ c.sid)
        × (r.valid ≡ true)
        × ("first" ≡ r.token)
        × (str_eq "first" "" ≡ false)
        × (refresh memory libraries env "first" store
            ≡ (ok (mint_session_tokens libraries env c.sub c.sid), record store { sessions = t }))
        × (memory.rows t
            ≡ update_where
                (λ q. str_eq q.id c.sid)
                (with_token (
                  hash_token libraries
                    (mint_session_tokens libraries env c.sub c.sid).refresh_token))
                (memory.rows store.sessions)))
refresh-cases_example = refresh-cases memory libraries env "first" store
