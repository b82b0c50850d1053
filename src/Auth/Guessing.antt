-- ===== src/Auth/Guessing.antt =====
-- Wrong passwords in a row. modules/auth/auth.service.ts
use fsm_backend.Prelude.{
  eq_iff, ◌&&◌, Bool, any-none, All-imp, All-written, mem-written, All-append, any, eq_refl,
  mem-append_last, arith, ap, ◌+◌, ◌∙◌, ◌≤◌, All-mem, ◌<◌, Memᴰ, str_eq, ◌≡◌, [], ◌∷◌, refl, inl,
  inr, sym, ℕ, String, All, true, false, Option, none, some,
}
use fsm_backend.Errors.{ok}
use fsm_backend.Prisma.{Unique, update_free, find_first-cases, Database, unordered}
use fsm_backend.Auth.Types.{attempt_unique, LoginAttempt, Store, AuthConfig, Env}
use fsm_backend.Auth.Lockout.{
  counted, within_window, after_failure, new_attempt, lock_until, find_attempt,
  record_login_failure, is_attempt,
}

module _ (p : Database) (auth : AuthConfig) (email ip : String) where
  -- The only row of the key is for `k` failures, the last of them at `t`.
  abbrev pub HasFailed : ℕ → ℕ → Store p → Type 0
  HasFailed k t s =
      (a : LoginAttempt) × Memᴰ a (p.rows s.attempts)
      × (is_attempt email ip a ≡ true)
      × All (λ r. is_attempt email ip r ≡ true → r ≡ a) (p.rows s.attempts)
      × (a.fail_count ≡ k)
      × (a.last_failed_at ≡ t)
      × (a.locked_until ≡ lock_until auth t k)

  -- No failure is on record.
  abbrev pub IsClear : Store p → Type 0
  IsClear s = All (λ r. is_attempt email ip r ≡ false) (p.rows s.attempts)

  pub find-only :
      (env : Env) (s : Store p) (a : LoginAttempt)
      → Memᴰ a (p.rows s.attempts)
      → is_attempt email ip a ≡ true
      → All (λ r. is_attempt email ip r ≡ true → r ≡ a) (p.rows s.attempts)
      → find_attempt p auth env email ip s ≡ some a
  find-only env s a m h only =
      elim (find_first-cases p unordered (is_attempt email ip) s.attempts) [
        | inl (e, none_of) ↦
            (let bad = All-mem (λ r. is_attempt email ip r ≡ false) (p.rows s.attempts) none_of m in
              cc)
        | inr (r, e, k, i) ↦
            e
            ∙ ap some
                (All-mem (λ r. is_attempt email ip r ≡ true → r ≡ a) (p.rows s.attempts) only i k)
      ]

  pub find-clear : (env : Env) (s : Store p) → IsClear s → find_attempt p auth env email ip s ≡ none
  find-clear env s clear = elim (find_first-cases p unordered (is_attempt email ip) s.attempts) [
    | inl (e, none_of) ↦ e
    | inr (r, e, k, i) ↦
        (let bad = All-mem (λ r. is_attempt email ip r ≡ false) (p.rows s.attempts) clear i in cc)
  ]

  no_clash :
      (env : Env) (user_id : Option String) (s : Store p)
      → IsClear s
      → All (λ (r : LoginAttempt). str_eq env.attempt_id r.id ≡ false) (p.rows s.attempts)
      → {u : Unique LoginAttempt} → Memᴰ u attempt_unique
      → any (u.clash (new_attempt auth env email ip user_id)) (p.rows s.attempts) ≡ false
  no_clash env user_id s clear fresh (Memᴰ.head q) =
      rw q (any-none (λ (r : LoginAttempt). str_eq env.attempt_id r.id) (p.rows s.attempts) fresh)
  no_clash env user_id s clear fresh (Memᴰ.tail (Memᴰ.head q)) =
      let clash : LoginAttempt → Bool =
        λ r. str_eq email r.email_lowercase && str_eq ip r.ip_address in
      rw q (
        any-none clash (p.rows s.attempts) (
          All-imp (λ r. is_attempt email ip r ≡ false) (λ r. clash r ≡ false) (p.rows s.attempts)
            (λ r out. ground (
              arith,
              eq_iff r.email_lowercase email,
              eq_iff email r.email_lowercase,
              eq_iff r.ip_address ip,
              eq_iff ip r.ip_address,
            ))
            clear))
  no_clash env user_id s clear fresh (Memᴰ.tail (Memᴰ.tail m)) = elim m [ ]

  -- The first failure.
  pub record-clear :
      (env : Env) (user_id : Option String) (s : Store p)
      → IsClear s
      → All (λ (r : LoginAttempt). str_eq env.attempt_id r.id ≡ false) (p.rows s.attempts)
      → (t : p.Table LoginAttempt) × (record_login_failure p auth env email ip user_id s
          ≡ (ok tt, record s { attempts = t }))
        × HasFailed 1 env.now (record s { attempts = t })
  unfolding record_login_failure
  record-clear env user_id s clear fresh =
      let row = new_attempt auth env email ip user_id in
      elim (p.create_law attempt_unique row s.attempts) [
        | inl (t, e, _, q) ↦ (
          t,
          rw (find-clear env s clear, e),
          (
            row,
            rw q (mem-append_last (p.rows s.attempts) row),
            rw (eq_refl email, eq_refl ip) refl,
            rw q (
                All-append (λ r. is_attempt email ip r ≡ true → r ≡ row) (p.rows s.attempts)
                  (row ∷ [])
                  (All-imp (λ r. is_attempt email ip r ≡ false)
                    (λ r. is_attempt email ip r ≡ true → r ≡ row) (p.rows s.attempts)
                    (λ r out h. (let bad : true ≡ false = sym h ∙ out in cc)) clear)
                  ((λ h. refl), tt)),
            refl,
            refl,
            refl,
          ),
        )
        | inr (u, e, m, bad) ↦ (let ok_row = no_clash env user_id s clear fresh m in cc)
      ]

  -- A failure after `k` others, within the window.
  pub record-again :
      (env : Env) (user_id : Option String) (k t : ℕ) (s : Store p)
      → HasFailed k t s
      → k < auth.login_max_attempts
      → env.now ≤ t + auth.login_attempt_window_ms
      → (t' : p.Table LoginAttempt) × (record_login_failure p auth env email ip user_id s
          ≡ (ok tt, record s { attempts = t' }))
        × HasFailed (k + 1) env.now (record s { attempts = t' })
  unfolding record_login_failure
  record-again env user_id k t s (a, m, h, only, count_k, last_t, lock) below soon =
      let f = after_failure auth env.now user_id a in
      let (t', e, q) = update_free p (is_attempt email ip) f s.attempts h m in
      let within : within_window auth env.now a ≡ true = ground arith in
      let unlocked : a.locked_until ≡ none = ground arith in
      let f_a : f
          ≡ counted env.now (a.fail_count + 1) (lock_until auth env.now (a.fail_count + 1))
              user_id =
        rw (within, unlocked) refl in
      (
        t',
        rw (find-only env s a m h only, e),
        (
          f a,
          rw q (mem-written (is_attempt email ip) f (p.rows s.attempts) h m),
          rw f_a h,
          rw q (
              All-written (λ r. is_attempt email ip r ≡ true → r ≡ f a)
                (λ r. is_attempt email ip r ≡ true → r ≡ a) (is_attempt email ip) f
                (p.rows s.attempts) (λ r w only_r later. ap f (only_r w))
                (λ r w only_r matches. (let bad : true ≡ false = sym matches ∙ w in cc)) only),
          rw f_a (ground arith),
          rw f_a refl,
          rw f_a (ground arith),
        ),
      )
