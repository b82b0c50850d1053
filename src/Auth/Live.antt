-- ===== src/Auth/Live.antt =====
-- Which password reset tokens can be used. modules/auth/auth.service.ts
use fsm_backend.Prelude.{
  arith, All-written, All-append, mem-append_last, All-of_mem, ap, ◌∙◌, eq_refl, List, ap, ◌∙◌, All,
  ◌⊎◌, Memᴰ, ◌≡◌, [], ◌∷◌, refl, inl, inr, sym, ℕ, zero, suc, ◌+◌, String, true, false, Option,
  none, some, update_where, ◌++◌,
}
use fsm_backend.Errors.{Thrown, plain, Result, ok, err}
use fsm_backend.Prisma.{Database, unordered, find_first-cases}
use fsm_backend.Auth.Types.{User, OneTimeToken, Store, Env, AuthConfig, token_unique}
use fsm_backend.Auth.Tokens.{hash_token, Libraries}
use fsm_backend.Auth.OneTime.{spent, is_unused_of}
use fsm_backend.Auth.Issue.{
  create_password_reset_token, try_create, new_token, request_password_reset,
}

module _ (p : Database) (x : Libraries) (env : Env) where
  -- The loop adds one of its tokens, or fails.
  try_create-cases :
      (message user_id : String) (expires_at room attempt : ℕ) (t : p.Table OneTimeToken)
      → ((e : Thrown) × (try_create p x env message user_id expires_at room attempt t ≡ err e))
        ⊎ ((n : ℕ) × (u : p.Table OneTimeToken) × (try_create p x env message user_id expires_at
                room attempt t
              ≡ ok (env.random_token n, u))
            × (p.rows u ≡ p.rows t ++ new_token p x env user_id expires_at n ∷ []))
  unfolding try_create
  try_create-cases message user_id expires_at zero attempt t = inl (plain message, refl)
  try_create-cases message user_id expires_at (suc room) attempt t =
      elim (p.create_law token_unique (new_token p x env user_id expires_at attempt) t) [
        | inl (u, e, _, q) ↦ inr (attempt, u, rw e, q)
        | inr (u, e, _, _) ↦ rw e (try_create-cases message user_id expires_at room (suc attempt) t)
      ]

  -- When a request for a password reset returns a token, it was made for a user whose email
  -- matches, its row has its hash and expires after the configured time, and it is that user's
  -- only unused row.
  pub request_password_reset-live :
      (auth : AuthConfig) (email token : String) (s : Store p)
      → (request_password_reset p x env auth email s).0 ≡ ok (some token)
      → (u : User) × Memᴰ u (p.rows s.users)
        × (x.equals_insensitive u.email email ≡ true)
        × ((r : OneTimeToken) × Memᴰ r
              (p.rows (request_password_reset p x env auth email s).1.reset_tokens)
            × (is_unused_of u.id r ≡ true)
            × (r.token_hash ≡ hash_token x token)
            × (r.expires_at ≡ env.now + auth.password_reset_ttl_ms)
            × All
                (λ q. is_unused_of u.id q ≡ true → q ≡ r)
                (p.rows (request_password_reset p x env auth email s).1.reset_tokens))
  unfolding request_password_reset create_password_reset_token
  request_password_reset-live auth email token s done =
      elim (find_first-cases p unordered (λ u. x.equals_insensitive u.email email) s.users) [
        | inl (e, h) ↦
            (let z : Path (Result (Option String)) (ok none) (ok (some token)) = rw e at done in cc)
        | inr (u, e, h, m) ↦
            let t = (p.update_many (is_unused_of u.id) (spent env.now) s.reset_tokens).0 in
            let q1 = (p.update_many_law (is_unused_of u.id) (spent env.now) s.reset_tokens).0 in
            let expires_at = env.now + auth.password_reset_ttl_ms in
            elim (try_create-cases "Unable to create password reset token" u.id expires_at 5 0 t) [
              | inl (bad, c) ↦
                  (let z : Path (Result (Option String)) (err bad) (ok (some token)) =
                      rw (e, c) at done in
                    cc)
              | inr (n, v, c, q) ↦
                  let row = new_token p x env u.id expires_at n in
                  let same : env.random_token n ≡ token =
                    (let z : Path (Result (Option String)) (ok (some (env.random_token n)))
                          (ok (some token)) =
                        rw (e, c) at done in
                      cc) in
                  let rows_v = q ∙ ap (λ (rs : List OneTimeToken). rs ++ row ∷ []) q1 in
                  (
                    u,
                    m,
                    h,
                    (
                      row,
                      rw (e, c)
                          (rw rows_v (
                            mem-append_last
                              (update_where (is_unused_of u.id) (spent env.now)
                                (p.rows s.reset_tokens))
                              row)),
                      rw (eq_refl u.id) refl,
                      ap (hash_token x) same,
                      refl,
                      rw (e, c)
                          (rw rows_v (
                            All-append (λ q. is_unused_of u.id q ≡ true → q ≡ row)
                              (update_where (is_unused_of u.id) (spent env.now)
                                (p.rows s.reset_tokens))
                              (row ∷ [])
                              (All-written (λ q. is_unused_of u.id q ≡ true → q ≡ row) (λ q. Unit)
                                (is_unused_of u.id) (spent env.now) (p.rows s.reset_tokens)
                                (λ q w k unused. absurd (ground arith))
                                (λ q w k unused. (let z : true ≡ false = sym unused ∙ w in cc))
                                (All-of_mem (λ q. Unit) (p.rows s.reset_tokens) (λ q i. tt)))
                              ((λ k. refl), tt))),
                    ),
                  )
            ]
      ]
