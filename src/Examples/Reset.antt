-- ===== src/Examples/Reset.antt =====
-- A user who asks for a password reset, and one who has a token.
use fsm_backend.Prelude.{
  str_eq, ◌++◌, false, ◌⊎◌, All, ◌<◌, true, ◌⊎◌, HasDistinctKeys, Memᴰ, refl, none, some, [], ◌∷◌,
  ◌≡◌, ◌+◌,
}
use fsm_backend.Memory.{memory}
use fsm_backend.Errors.{ok, err, Thrown}
use fsm_backend.Auth.Types.{Credentials, Store, OneTimeToken, User}
use fsm_backend.Auth.OneTime.{
  write_user, spend_reset, reset_password, password_reset_invalid, is_unused_of,
}
use fsm_backend.Auth.Issue.{try_create, create_password_reset_token, request_password_reset}
use fsm_backend.Auth.Register.{register, RegisterResult, new_user}
use fsm_backend.Auth.Registered.{register-cases, HasSession}
use fsm_backend.Auth.Live.{request_password_reset-live}
use fsm_backend.Auth.Reset.{IsReset, reset_password-cases, reset_password-reset_password}
use fsm_backend.Examples.Auth.{env, libraries, config, store}

-- The store with a token that the user was sent.
abbrev asked : Store memory
unfolding memory
asked = record store {
  reset_tokens =
      record {
        id = "token-0";
        user_id = "user-1";
        token_hash = "sent";
        expires_at = 2000;
        used_at = none;
        created_at = 500;
      }
      ∷ [];
}

hashes-distinct :
    HasDistinctKeys (λ (r : OneTimeToken). r.token_hash) (memory.rows asked.reset_tokens)
unfolding memory
hashes-distinct = (tt, tt)

resets : (reset_password memory libraries env "sent" "new" asked).0 ≡ ok tt
unfolding memory reset_password spend_reset write_user
resets = refl

reset_password-reset_password_example :
    reset_password memory libraries env "sent" "newer"
      (reset_password memory libraries env "sent" "new" asked).1
    ≡ (err password_reset_invalid, (reset_password memory libraries env "sent" "new" asked).1)
reset_password-reset_password_example =
    reset_password-reset_password memory libraries env env "sent" "new" "newer" asked
      hashes-distinct resets

reset_password-cases_example :
    ((e : Thrown) × ((reset_password memory libraries env "sent" "new" asked).0 ≡ err e)
      × ((reset_password memory libraries env "sent" "new" asked).1.users ≡ asked.users)
      × ((reset_password memory libraries env "sent" "new" asked).1.sessions ≡ asked.sessions))
    ⊎ ((r : OneTimeToken) × Memᴰ r (memory.rows asked.reset_tokens)
        × (r.token_hash ≡ "sent")
        × (r.used_at ≡ none)
        × (1000 < r.expires_at)
        × ((reset_password memory libraries env "sent" "new" asked).0 ≡ ok tt)
        × IsReset memory libraries env "new" r asked
            (reset_password memory libraries env "sent" "new" asked).1)
reset_password-cases_example = reset_password-cases memory libraries env "sent" "new" asked

requested :
    (request_password_reset memory libraries env config "ada@example.org" asked).0
    ≡ ok (some "reset")
unfolding memory request_password_reset create_password_reset_token try_create
requested = refl

request_password_reset-live_example :
    (u : User) × Memᴰ u (memory.rows asked.users)
    × (libraries.equals_insensitive u.email "ada@example.org" ≡ true)
    × ((r : OneTimeToken) × Memᴰ r (
          memory.rows
            (request_password_reset memory libraries env config "ada@example.org"
              asked).1.reset_tokens)
        × (is_unused_of u.id r ≡ true)
        × (r.token_hash ≡ "reset")
        × (r.expires_at ≡ 1000 + 900)
        × All
            (λ q. is_unused_of u.id q ≡ true → q ≡ r)
            (memory.rows
              (request_password_reset memory libraries env config "ada@example.org"
                asked).1.reset_tokens))
request_password_reset-live_example =
    request_password_reset-live memory libraries env config "ada@example.org" "reset" asked
      requested

abbrev newcomer : Credentials
newcomer = record { email = "grace@example.org"; password = "secret" }

register-cases_example :
    ((e : Thrown) × (register memory libraries env config newcomer store ≡ (err e, store)))
    ⊎ ((r : RegisterResult) × ((register memory libraries env config newcomer store).0 ≡ ok r)
        × (r.email_verification_required ≡ false)
        × All (λ (u : User). str_eq u.email "grace@example.org" ≡ false) (memory.rows store.users)
        × (memory.rows (register memory libraries env config newcomer store).1.users
            ≡ memory.rows store.users
              ++ new_user memory libraries env config "grace@example.org" "secret" ∷ [])
        × HasSession memory libraries env config false store.sessions
            (register memory libraries env config newcomer store).1.sessions)
register-cases_example = register-cases memory libraries env config newcomer store
