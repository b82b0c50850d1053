-- ===== src/Auth/Reset.antt =====
-- Resetting a password. modules/auth/auth.service.ts
use fsm_backend.Auth.Sessions.{revoked}
use fsm_backend.Prelude.{
  HasDistinctKeys-mem, All-written, All-mem, All-update_where, [], ap, arith, [], Option-cases, ◌<◌,
  Memᴰ, ◌⊎◌, ◌∙◌, Bool, HasDistinctKeys, ◌≡◌, refl, inl, inr, sym, Bool-cases, String, All, true,
  false, none, is_some, leb, str_eq, eq_iff, eq_refl, update_where,
}
use fsm_backend.Errors.{Result, Thrown, ok, err, prisma, p2025}
use fsm_backend.Prisma.{Database, unordered, find_first-cases, update_free}
use fsm_backend.Auth.Types.{Store, Env, User, OneTimeToken}
use fsm_backend.Auth.Tokens.{Libraries, hash_token}
use fsm_backend.Auth.OneTime.{
  password_reset_expired, is_unused_of, password_reset_invalid, write_user, spend_reset,
  reset_password, spent,
}

abbrev with_password : String → User → User
with_password password u = record u { password = password }

abbrev with_hash : String → OneTimeToken → Bool
with_hash hash r = str_eq r.token_hash hash

module _ (p : Database) (x : Libraries) where
  -- What a reset writes: the password of the token's user, all sessions of that user revoked, the
  -- token and the user's unused ones spent.
  abbrev pub IsReset : Env → String → OneTimeToken → Store p → Store p → Type 0
  IsReset env password r s t =
      (p.rows t.users
        ≡ update_where (λ u. str_eq u.id r.user_id) (with_password (x.argon2_hash password))
            (p.rows s.users))
      × (p.rows t.sessions
          ≡ update_where (λ q. str_eq q.user_id r.user_id) revoked (p.rows s.sessions))
      × (p.rows t.reset_tokens
          ≡ update_where (is_unused_of r.user_id) (spent env.now)
              (update_where (λ q. str_eq q.id r.id) (spent env.now) (p.rows s.reset_tokens)))

  -- A password reset fails and leaves users and sessions as they were, or finds an unused and
  -- unexpired token with the hash, gives the token's user the new password, revokes all sessions
  -- of that user and spends the token and the user's unused ones.
  pub reset_password-cases :
      (env : Env) (token password : String) (s : Store p)
      → ((e : Thrown) × ((reset_password p x env token password s).0 ≡ err e)
          × ((reset_password p x env token password s).1.users ≡ s.users)
          × ((reset_password p x env token password s).1.sessions ≡ s.sessions))
        ⊎ ((r : OneTimeToken) × Memᴰ r (p.rows s.reset_tokens)
            × (r.token_hash ≡ hash_token x token)
            × (r.used_at ≡ none)
            × (env.now < r.expires_at)
            × ((reset_password p x env token password s).0 ≡ ok tt)
            × IsReset env password r s (reset_password p x env token password s).1)
  unfolding reset_password spend_reset write_user
  reset_password-cases env token password s =
      elim (find_first-cases p unordered (with_hash (hash_token x token)) s.reset_tokens) [
        | inl (e, h) ↦ inl (password_reset_invalid, rw e, rw e, rw e)
        | inr (r, e, h, m) ↦ elim (Option-cases r.used_at) [
          | inr (at, used) ↦ inl (password_reset_invalid, rw (e, used), rw (e, used), rw (e, used))
          | inl unused ↦
              let (t1, w1, q1) =
                update_free p (λ q. str_eq q.id r.id) (spent env.now) s.reset_tokens (eq_refl r.id)
                  m in
              elim (Bool-cases (leb r.expires_at env.now)) [
                | inl late ↦ inl (
                  password_reset_expired,
                  rw (e, unused, late),
                  rw (e, unused, late, w1),
                  rw (e, unused, late, w1),
                )
                | inr fresh ↦
                    let t2 = p.update_many (is_unused_of r.user_id) (spent env.now) t1 in
                    let q2 = (p.update_many_law (is_unused_of r.user_id) (spent env.now) t1).0 in
                    elim (p.update_law [] (λ u. str_eq u.id r.user_id)
                      (with_password (x.argon2_hash password)) s.users) [
                        | inr (inl (w3, _)) ↦ inl (
                          prisma p2025,
                          rw (e, unused, fresh, w1, w3),
                          rw (e, unused, fresh, w1, w3),
                          rw (e, unused, fresh, w1, w3),
                        )
                        | inr (inr (u, _, w3, i, _, _, _)) ↦ elim i [ ]
                        | inl (t3, w3, _, _, q3) ↦ inr (
                          r,
                          m,
                          (eq_iff r.token_hash (hash_token x token)).0 h,
                          unused,
                          ground arith,
                          rw (e, unused, fresh, w1, w3),
                          rw (e, unused, fresh, w1, w3)
                              (
                                q3,
                                (p.update_many_law (λ q. str_eq q.user_id r.user_id) revoked
                                    s.sessions).0,
                                q2 ∙ ap (update_where (is_unused_of r.user_id) (spent env.now)) q1,
                              ),
                        )
                      ]
              ]
        ]
      ]

  refused :
      (env : Env) (token password : String) (s : Store p)
      → All
          (λ q. with_hash (hash_token x token) q ≡ true → is_some q.used_at ≡ true)
          (p.rows s.reset_tokens)
      → reset_password p x env token password s ≡ (err password_reset_invalid, s)
  unfolding reset_password
  refused env token password s spent_all =
      elim (find_first-cases p unordered (with_hash (hash_token x token)) s.reset_tokens) [
        | inl (e, h) ↦ rw e
        | inr (r, e, h, m) ↦
            let used =
              All-mem (λ q. with_hash (hash_token x token) q ≡ true → is_some q.used_at ≡ true)
                (p.rows s.reset_tokens) spent_all m h in
            rw (e, used)
      ]

  -- A reset token works once: after a password reset with it succeeded, any later reset with it
  -- fails with PASSWORD_RESET_INVALID and changes nothing, if tokens have distinct hashes.
  pub reset_password-reset_password :
      (env env' : Env) (token password password' : String) (s : Store p)
      → HasDistinctKeys (λ (r : OneTimeToken). r.token_hash) (p.rows s.reset_tokens)
      → (reset_password p x env token password s).0 ≡ ok tt
      → reset_password p x env' token password' (reset_password p x env token password s).1
        ≡ (err password_reset_invalid, (reset_password p x env token password s).1)
  reset_password-reset_password env env' token password password' s d done =
      elim (reset_password-cases env token password s) [
        | inl (e, bad, _, _) ↦
            (let z : Path (Result (Unit {0})) (err e) (ok tt) = sym bad ∙ done in cc)
        | inr (r, m, h, unused, fresh, _, (_, _, q)) ↦
            refused env' token password' (reset_password p x env token password s).1 (
              rw q (
                All-update_where IsSpent (is_unused_of r.user_id) (spent env.now)
                  (update_where (λ q. str_eq q.id r.id) (spent env.now) (p.rows s.reset_tokens))
                  (λ a w k i. refl)
                  (All-written IsSpent (λ a. a.token_hash ≡ r.token_hash → a ≡ r)
                    (λ q. str_eq q.id r.id) (spent env.now) (p.rows s.reset_tokens)
                    (λ a w only i. refl)
                    (λ a out only i.
                      let same : a ≡ r =
                        only ((eq_iff a.token_hash (hash_token x token)).0 i ∙ sym h) in
                      let own : str_eq a.id r.id ≡ true = rw same (eq_refl r.id) in
                      (let bad : true ≡ false = sym own ∙ out in cc))
                    (HasDistinctKeys-mem (λ (r : OneTimeToken). r.token_hash)
                      (p.rows s.reset_tokens) d m))))
      ]
    where
      IsSpent : OneTimeToken → Type 0
      IsSpent q = with_hash (hash_token x token) q ≡ true → is_some q.used_at ≡ true
