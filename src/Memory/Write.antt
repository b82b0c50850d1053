-- ===== src/Memory/Write.antt =====
-- Adding and updating a row, with the table's unique constraints.
use fsm_backend.Prelude.{
  ◌≡◌, refl, sym, ◌⊎◌, inl, inr, Bool, true, false, not, Option, none, some, List, [], ◌∷◌, ◌++◌,
  Memᴰ, select, any, update_where, All, if◌then◌else◌, Bool-cases, Option-cases, arith,
}
use fsm_backend.Errors.{Result, ok, err, prisma, p2002, p2025}
use fsm_backend.Prisma.{Unique, clashes}

module _ {A : Type 0} where
  -- The first constraint that a row violates.
  violated : List (Unique A) → A → List A → Option (Unique A)
  violated [] r rs = none
  violated (u ∷ us) r rs = if any (u.clash r) rs then some u else violated us r rs

  violated-none :
      (us : List (Unique A)) (r : A) (rs : List A)
      → violated us r rs ≡ none
      → clashes us r rs ≡ false
  unfolding violated
  violated-none [] r rs h = refl
  violated-none (u ∷ us) r rs h = ground (arith, violated-none us r rs)

  violated-some :
      (us : List (Unique A)) (r : A) (rs : List A) {u : Unique A}
      → violated us r rs ≡ some u
      → Memᴰ u us × (any (u.clash r) rs ≡ true)
  unfolding violated
  violated-some [] r rs h = cc
  violated-some (v ∷ us) r rs {u} h = elim (Bool-cases (any (v.clash r) rs)) [
    | inl e ↦ let same : u ≡ v = ground arith in rw same (Memᴰ.head refl, e)
    | inr e ↦ let (m, c) = violated-some us r rs {u = u} (rw (e, violated) at h) in (Memᴰ.tail m, c)
  ]

  unfoldable pub create : List (Unique A) → A → List A → Result (List A)
  unfolding violated
  create us r t = elim (violated us r t) [
    | none ↦ ok (t ++ r ∷ [])
    | some u ↦ err (prisma (p2002 u.target))
  ]

  pub create_law :
      (us : List (Unique A)) (r : A) (t : List A)
      → ((t' : List A) × (create us r t ≡ ok t') × (clashes us r t ≡ false) × (t' ≡ t ++ r ∷ []))
        ⊎ ((u : Unique A) × (create us r t ≡ err (prisma (p2002 u.target)))
            × Memᴰ u us
            × (any (u.clash r) t ≡ true))
  unfolding create
  create_law us r t = elim (Option-cases (violated us r t)) [
    | inl e ↦ inl (t ++ r ∷ [], rw (e, create), violated-none us r t e, refl)
    | inr (u, e) ↦ let (m, c) = violated-some us r t e in inr (u, rw (e, create), m, c)
  ]

  -- The first violation that the rows which a test selects would meet once written.
  violation : List (Unique A) → (A → Bool) → (A → A) → List A → List A → Option (A × Unique A)
  violation us w f others [] = none
  violation us w f others (r ∷ rs) =
      let rest = violation us w f others rs in
      if w r then elim (violated us (f r) others) [ none ↦ rest | some u ↦ some (r, u) ] else rest

  violation-none :
      (us : List (Unique A)) (w : A → Bool) (f : A → A) (others rs : List A)
      → violation us w f others rs ≡ none
      → All (λ r. w r ≡ true → clashes us (f r) others ≡ false) rs
  unfolding violation
  violation-none us w f others [] h = tt
  violation-none us w f others (r ∷ rs) h = (
    (λ m. violated-none us (f r) others (ground arith)),
    violation-none us w f others rs (ground arith),
  )

  violation-some :
      (us : List (Unique A)) (w : A → Bool) (f : A → A) (others rs : List A) (r : A) (u : Unique A)
      → violation us w f others rs ≡ some (r, u)
      → Memᴰ u us × Memᴰ r rs × (w r ≡ true) × (any (u.clash (f r)) others ≡ true)
  unfolding violation
  violation-some us w f others [] r u h = cc
  violation-some us w f others (s ∷ rs) r u h =
      let later : violation us w f others rs ≡ some (r, u)
          → Memᴰ u us × Memᴰ r (s ∷ rs) × (w r ≡ true) × (any (u.clash (f r)) others ≡ true) =
        λ e. (let (a, b, c, d) = violation-some us w f others rs r u e in (a, Memᴰ.tail b, c, d)) in
      elim (Bool-cases (w s)) [
        | inr e ↦ later (ground arith)
        | inl e ↦ elim (Option-cases (violated us (f s) others)) [
          | inl n ↦ later (ground arith)
          | inr (v, n) ↦
              let same : s ≡ r = ground arith in
              let same_u : v ≡ u = ground arith in
              let (m, c) = violated-some us (f s) others n in
              (rw (← same_u) m, Memᴰ.head (sym same), rw (← same) e, rw (← same, ← same_u) c)
        ]
      ]

  unfoldable pub update : List (Unique A) → (A → Bool) → (A → A) → List A → Result (List A)
  unfolding violation violated
  update us w f t =
      if any w t
      then elim (violation us w f (select (λ s. not (w s)) t) t) [
        | none ↦ ok (update_where w f t)
        | some (r, u) ↦ err (prisma (p2002 u.target))
      ]
      else err (prisma p2025)

  pub update_law :
      (us : List (Unique A)) (w : A → Bool) (f : A → A) (t : List A)
      → ((t' : List A) × (update us w f t ≡ ok t')
          × (any w t ≡ true)
          × All (λ r. w r ≡ true → clashes us (f r) (select (λ s. not (w s)) t) ≡ false) t
          × (t' ≡ update_where w f t))
        ⊎ ((update us w f t ≡ err (prisma p2025)) × (any w t ≡ false))
        ⊎ ((u : Unique A) × (r : A) × (update us w f t ≡ err (prisma (p2002 u.target)))
            × Memᴰ u us
            × Memᴰ r t
            × (w r ≡ true)
            × (any (u.clash (f r)) (select (λ s. not (w s)) t) ≡ true))
  unfolding update
  update_law us w f t = elim (Bool-cases (any w t)) [
    | inr e ↦ inr (inl (rw e, e))
    | inl e ↦ elim (Option-cases (violation us w f (select (λ s. not (w s)) t) t)) [
      | inl n ↦ inl (update_where w f t, rw (e, n), e, violation-none us w f _ t n, refl)
      | inr ((r, u), n) ↦
          let (a, b, c, d) = violation-some us w f _ t r u n in
          inr (inr (u, r, rw (e, n), a, b, c, d))
    ]
  ]
