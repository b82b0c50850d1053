-- ===== src/Memory/Least.antt =====
-- The first row of those that a test selects, in a query's order.
use fsm_backend.Prelude.{
  ◌≡◌, refl, ◌⊎◌, inl, inr, Bool, true, false, Option, none, some, List, [], ◌∷◌, Memᴰ, All,
  if◌then◌else◌, Bool-cases, arith,
}
use fsm_backend.Prisma.{Order}

module _ {A : Type 0} (o : Order A) where
  le_of_not : (a b : A) → o.le a b ≡ false → o.le b a ≡ true
  le_of_not a b h = ground (arith, o.total a b)

  -- The first of two candidates, the earlier one of a tie.
  better : A → Option A → Option A
  better a none = some a
  better a (some b) = if o.le a b then some a else some b

  unfoldable pub least : (A → Bool) → List A → Option A
  unfolding better
  least w [] = none
  least w (a ∷ rs) = let rest = least w rs in if w a then better a rest else rest

  abbrev pub IsLeast : (A → Bool) → List A → Option A → Type 0
  IsLeast w rs m =
      ((m ≡ none) × All (λ r. w r ≡ false) rs)
      ⊎ ((r : A) × (m ≡ some r)
          × (w r ≡ true)
          × Memᴰ r rs
          × All (λ s. w s ≡ true → o.le r s ≡ true) rs)

  All-any_of_false :
      (w : A → Bool) (a : A) (rs : List A)
      → All (λ r. w r ≡ false) rs
      → All (λ s. w s ≡ true → o.le a s ≡ true) rs
  All-any_of_false w a [] h = tt
  All-any_of_false w a (b ∷ rs) h = (λ p. ground arith, All-any_of_false w a rs h.1)

  All-le_weaken :
      (w : A → Bool) (a b : A) (rs : List A)
      → o.le a b ≡ true
      → All (λ s. w s ≡ true → o.le b s ≡ true) rs
      → All (λ s. w s ≡ true → o.le a s ≡ true) rs
  All-le_weaken w a b [] h k = tt
  All-le_weaken w a b (c ∷ rs) h k = (λ p. o.trans a b c h (k.0 p), All-le_weaken w a b rs h k.1)

  le_self : (a : A) → o.le a a ≡ true
  le_self a = ground (arith, o.total a a)

  pub least_law : (w : A → Bool) (rs : List A) → IsLeast w rs (least w rs)
  unfolding least
  least_law w [] = inl (refl, tt)
  least_law w (a ∷ rs) = elim (Bool-cases (w a)) [
    | inl e ↦ elim (least_law w rs) [
      | inl (n, h) ↦
          inr (a, rw (e, n), e, Memᴰ.head refl, ((λ p. le_self a), All-any_of_false w a rs h))
      | inr (r, n, m, i, h) ↦ elim (Bool-cases (o.le a r)) [
        | inl l ↦
            inr (a, rw (e, n, l), e, Memᴰ.head refl, ((λ p. le_self a), All-le_weaken w a r rs l h))
        | inr l ↦ inr (r, rw (e, n, l), m, Memᴰ.tail i, ((λ p. le_of_not a r l), h))
      ]
    ]
    | inr e ↦ elim (least_law w rs) [
      | inl (n, h) ↦ inl (rw (e, n), (e, h))
      | inr (r, n, m, i, h) ↦ inr (r, rw (e, n), m, Memᴰ.tail i, ((λ p. ground arith), h))
    ]
  ]
