-- ===== src/Auth/Registered.antt =====
-- What a registration leaves behind. modules/auth/auth.service.ts
use fsm_backend.Auth.OneTime.{spent, is_unused_of}
use fsm_backend.Auth.Lockout.{create_session, open_session}
use fsm_backend.Prelude.{
  ap, ◌∙◌, Bool, [], ◌∷◌, inl, inr, refl, All, true, false, none, some, str_eq, ◌≡◌, ◌⊎◌, ◌++◌, ◌+◌,
  if◌then◌else◌, arith,
}
use fsm_backend.Errors.{Thrown, Result-cases, ok, err, prisma, p2002}
use fsm_backend.Prisma.{Database, unordered, find_first-cases}
use fsm_backend.Auth.Types.{
  Session, Store, Env, AuthConfig, Credentials, user_unique, session_unique,
}
use fsm_backend.Auth.Tokens.{normalize_email, hash_token, Libraries, mint_session_tokens}
use fsm_backend.Auth.Issue.{create_verification_token, try_create}
use fsm_backend.Auth.Register.{
  is_email_taken, email_taken, RegisterResult, create_user, register, finish, new_user,
}

module _ (p : Database) (x : Libraries) (env : Env) (auth : AuthConfig) where
  abbrev pub opened : Session
  opened = record {
    id = env.session_id;
    user_id = env.user_id;
    token = hash_token x (mint_session_tokens x env env.user_id env.session_id).refresh_token;
    valid = true;
    created_at = env.now;
  }

  -- The session that a registration opens, if the email need not be verified first.
  abbrev pub HasSession : Bool → p.Table Session → p.Table Session → Type 0
  HasSession true a b = b ≡ a
  HasSession false a b = p.rows b ≡ p.rows a ++ opened ∷ []

  finish-cases :
      (required : Bool) (s : Store p)
      → ((e : Thrown) × ((finish p x env auth required s).0 ≡ err e))
        ⊎ ((r : RegisterResult) × ((finish p x env auth required s).0 ≡ ok r)
            × (r.email_verification_required ≡ required)
            × ((finish p x env auth required s).1.users ≡ s.users)
            × HasSession required s.sessions (finish p x env auth required s).1.sessions)
  unfolding finish create_verification_token open_session create_session
  finish-cases true s =
      let t = (p.update_many (is_unused_of env.user_id) (spent env.now) s.verification_tokens).0 in
      elim (Result-cases (
        try_create p x env "Unable to create verification token" env.user_id
          (env.now + auth.email_verification_ttl_ms) 5 0 t)) [
            | inr (e, bad) ↦ inl (e, rw bad)
            | inl ((raw_token, u), good) ↦ inr (
              record {
                access_token = none;
                refresh_token = none;
                email_verification_required = true;
                verification_token = some raw_token;
              },
              rw good,
              refl,
              rw good,
              rw good,
            )
          ]
  finish-cases false s = elim (p.create_law session_unique opened s.sessions) [
    | inr (u, e, _, _) ↦ inl (prisma (p2002 u.target), rw e)
    | inl (t, e, _, q) ↦ inr (
      record {
        access_token = some (mint_session_tokens x env env.user_id env.session_id).access_token;
        refresh_token = some (mint_session_tokens x env env.user_id env.session_id).refresh_token;
        email_verification_required = false;
        verification_token = none;
      },
      rw e,
      refl,
      rw e,
      rw e q,
    )
  ]

  -- A registration fails and changes nothing, or adds a user with the normalized email, which no
  -- user had, and opens one valid session for that user exactly if the email need not be verified
  -- first.
  pub register-cases :
      (input : Credentials) (s : Store p)
      → ((e : Thrown) × (register p x env auth input s ≡ (err e, s)))
        ⊎ ((r : RegisterResult) × ((register p x env auth input s).0 ≡ ok r)
            × (r.email_verification_required ≡ auth.email_verification_required)
            × All (λ u. str_eq u.email (normalize_email x input.email) ≡ false) (p.rows s.users)
            × (p.rows (register p x env auth input s).1.users
                ≡ p.rows s.users
                  ++ new_user p x env auth
                      (normalize_email x input.email)
                      (x.argon2_hash input.password)
                    ∷ [])
            × HasSession auth.email_verification_required s.sessions
                (register p x env auth input s).1.sessions)
  unfolding register create_user
  register-cases input s =
      let email = normalize_email x input.email in
      let user = new_user p x env auth email (x.argon2_hash input.password) in
      elim (find_first-cases p unordered (λ u. str_eq u.email email) s.users) [
        | inr (u, e, h, m) ↦ inl (email_taken, rw e)
        | inl (e, free) ↦ elim (p.create_law user_unique user s.users) [
          | inr (u, c, _, _) ↦ inl (
            (if is_email_taken (prisma (p2002 u.target))
                then email_taken
                else prisma (p2002 u.target)),
            rw (e, c),
          )
          | inl (t, c, _, q) ↦
              elim (finish-cases auth.email_verification_required (record s { users = t })) [
                | inl (bad, f) ↦
                    inl ((if is_email_taken bad then email_taken else bad), ground arith)
                | inr (r, f, same, users, session) ↦ inr (
                  r,
                  rw (e, c, f),
                  same,
                  free,
                  rw (e, c, f) (ap p.rows users ∙ q),
                  rw (e, c, f) session,
                )
              ]
        ]
      ]
