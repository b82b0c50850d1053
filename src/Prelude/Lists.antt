-- ===== src/Prelude/Lists.antt =====
-- Lists measured by native numbers and filtered by Boolean tests.
use Prim.Native.Nat.{ℕ, zero, suc, ◌+◌}
use mathlib.Core.Path.{◌≡◌, refl, sym, ◌∙◌}
use mathlib.Core.Logic.{◌⊎◌, inl, inr}
use mathlib.Core.Bool.{Bool, true, false, ◌||◌}
use mathlib.Core.List.{List, [], ◌∷◌, ◌++◌, Memᴰ}
use native.Mathlib.Omega.{arith}
use fsm_backend.Prelude.Tests.{if◌then◌else◌, Bool-cases}

module _ {ℓ} {A : Type ℓ} where
  abbrev pub length : List A → ℕ
  length [] = 0
  length (x ∷ xs) = suc (length xs)

  abbrev pub take : ℕ → List A → List A
  take zero xs = []
  take (suc n) [] = []
  take (suc n) (x ∷ xs) = x ∷ take n xs

  -- The elements that pass a test, in their order.
  abbrev pub select : (A → Bool) → List A → List A
  select w [] = []
  select w (x ∷ xs) = if w x then x ∷ select w xs else select w xs

  abbrev pub count : (A → Bool) → List A → ℕ
  count w [] = 0
  count w (x ∷ xs) = if w x then suc (count w xs) else count w xs

  abbrev pub any : (A → Bool) → List A → Bool
  any w [] = false
  any w (x ∷ xs) = w x || any w xs

  -- `f` applied to the elements that pass a test.
  abbrev pub update_where : (A → Bool) → (A → A) → List A → List A
  update_where w f [] = []
  update_where w f (x ∷ xs) = (if w x then f x else x) ∷ update_where w f xs

  abbrev pub All {κ} : (A → Type κ) → List A → Type κ
  All P [] = Unit
  All P (x ∷ xs) = P x × All P xs

  pub length-append : (xs ys : List A) → length (xs ++ ys) ≡ length xs + length ys
  length-append [] ys = omega arith
  length-append (x ∷ xs) ys = omega (arith, length-append xs ys)

module _ {ℓ κ} {A : Type ℓ} (P : A → Type κ) where
  pub All-mem : {a : A} (xs : List A) → All P xs → Memᴰ a xs → P a
  All-mem [] h m = elim m [ ]
  All-mem (x ∷ xs) h (Memᴰ.head e) = rw e h.0
  All-mem (x ∷ xs) h (Memᴰ.tail m) = All-mem xs h.1 m

  pub All-of_mem : (xs : List A) → ((a : A) → Memᴰ a xs → P a) → All P xs
  All-of_mem [] h = tt
  All-of_mem (x ∷ xs) h = (h x (Memᴰ.head refl), All-of_mem xs (λ a m. h a (Memᴰ.tail m)))

  pub All-append : (xs ys : List A) → All P xs → All P ys → All P (xs ++ ys)
  All-append [] ys h k = k
  All-append (x ∷ xs) ys h k = (h.0, All-append xs ys h.1 k)

  pub All-select : (w : A → Bool) (xs : List A) → All P xs → All P (select w xs)
  All-select w [] h = tt
  All-select w (x ∷ xs) h = elim (Bool-cases (w x)) [
    | inl e ↦ rw e (h.0, All-select w xs h.1)
    | inr e ↦ rw e (All-select w xs h.1)
  ]

  pub All-take : (n : ℕ) (xs : List A) → All P xs → All P (take n xs)
  All-take zero xs h = tt
  All-take (suc n) [] h = tt
  All-take (suc n) (x ∷ xs) h = (h.0, All-take n xs h.1)

  pub All-update_where :
      (w : A → Bool) (f : A → A) (xs : List A)
      → ((a : A) → w a ≡ true → P a → P (f a))
      → All P xs
      → All P (update_where w f xs)
  All-update_where w f [] keep h = tt
  All-update_where w f (x ∷ xs) keep h = elim (Bool-cases (w x)) [
    | inl e ↦ rw e (keep x e h.0, All-update_where w f xs keep h.1)
    | inr e ↦ rw e (h.0, All-update_where w f xs keep h.1)
  ]

module _ {ℓ} {A : Type ℓ} where
  -- A write that misses all that a test looks at leaves what the test selects as it was.
  pub select-update_where :
      (v w : A → Bool) (f : A → A) (xs : List A)
      → ((a : A) → w a ≡ true → (v a ≡ false) × (v (f a) ≡ false))
      → select v (update_where w f xs) ≡ select v xs
  select-update_where v w f [] apart = refl
  select-update_where v w f (x ∷ xs) apart =
      ground (arith, apart x, select-update_where v w f xs apart)

  pub select-select_ne :
      (v w : A → Bool) (xs : List A)
      → ((a : A) → w a ≡ false → v a ≡ false)
      → select v (select w xs) ≡ select v xs
  select-select_ne v w [] apart = refl
  select-select_ne v w (x ∷ xs) apart = ground (arith, apart x, select-select_ne v w xs apart)

  pub select-append :
      (v : A → Bool) (xs ys : List A) → select v (xs ++ ys) ≡ select v xs ++ select v ys
  select-append v [] ys = refl
  select-append v (x ∷ xs) ys = ground (arith, select-append v xs ys)

  pub count-append : (v : A → Bool) (xs ys : List A) → count v (xs ++ ys) ≡ count v xs + count v ys
  count-append v [] ys = omega arith
  count-append v (x ∷ xs) ys = ground (arith, count-append v xs ys)

  pub length-select : (v : A → Bool) (xs : List A) → length (select v xs) ≡ count v xs
  length-select v [] = refl
  length-select v (x ∷ xs) = ground (arith, length-select v xs)

  pub any-mem : (v : A → Bool) {a : A} (xs : List A) → v a ≡ true → Memᴰ a xs → any v xs ≡ true
  any-mem v [] h m = elim m [ ]
  any-mem v (x ∷ xs) h (Memᴰ.head e) = rw (← e) (rw h)
  any-mem v (x ∷ xs) h (Memᴰ.tail m) = ground (arith, any-mem v xs h m)

pub any-none :
    {A : Type 0} (v : A → Bool) (xs : List A) → All (λ a. v a ≡ false) xs → any v xs ≡ false
any-none v [] h = refl
any-none v (x ∷ xs) h = ground (arith, h.0, any-none v xs h.1)

pub mem-append_last : {A : Type 0} (xs : List A) (a : A) → Memᴰ a (xs ++ a ∷ [])
mem-append_last [] a = Memᴰ.head refl
mem-append_last (x ∷ xs) a = Memᴰ.tail (mem-append_last xs a)

pub mem-append_left : {A : Type 0} {a : A} (xs ys : List A) → Memᴰ a xs → Memᴰ a (xs ++ ys)
mem-append_left [] ys m = elim m [ ]
mem-append_left (x ∷ xs) ys (Memᴰ.head e) = Memᴰ.head e
mem-append_left (x ∷ xs) ys (Memᴰ.tail m) = Memᴰ.tail (mem-append_left xs ys m)

pub mem-update_where :
    {A : Type 0} {a : A} (w : A → Bool) (f : A → A) (xs : List A)
    → Memᴰ a xs
    → (w a ≡ true) × Memᴰ (f a) (update_where w f xs) ⊎ (w a ≡ false) × Memᴰ a (update_where w f xs)
mem-update_where w f [] m = elim m [ ]
mem-update_where {a} w f (x ∷ xs) (Memᴰ.head e) = elim (Bool-cases (w a)) [
  | inl h ↦ inl (h, Memᴰ.head (ground arith))
  | inr h ↦ inr (h, Memᴰ.head (ground arith))
]
mem-update_where w f (x ∷ xs) (Memᴰ.tail m) = elim (mem-update_where w f xs m) [
  | inl (h, i) ↦ inl (h, Memᴰ.tail i)
  | inr (h, i) ↦ inr (h, Memᴰ.tail i)
]

-- A row that a write finds is in the table as written.
pub mem-written :
    {A : Type 0} {a : A} (w : A → Bool) (f : A → A) (xs : List A)
    → w a ≡ true
    → Memᴰ a xs
    → Memᴰ (f a) (update_where w f xs)
mem-written w f xs h m = elim (mem-update_where w f xs m) [
  | inl (k, i) ↦ i
  | inr (k, i) ↦ (let bad : true ≡ false = sym h ∙ k in cc)
]
