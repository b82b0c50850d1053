-- ===== src/Prelude/Counting.antt =====
-- Counting the rows that a list of keys names.
use mathlib.Core.List.{Permᴰ}
use fsm_backend.Prelude.Keys.{HasDistinctKeys}
use fsm_backend.Prelude.Tests.{elem, Bool-cases}
use fsm_backend.Prelude.Lists.{All, length, count, select, update_where}
use Prim.Native.Nat.{suc, ◌+◌, ◌≤◌, ◌<◌}
use Prim.Native.String.{String}
use mathlib.Core.Path.{◌≡◌, refl, ap, ◌∙◌}
use mathlib.Core.Logic.{◌≢◌, inl, inr}
use mathlib.Core.Bool.{false, Bool, true, ◌&&◌}
use mathlib.Core.List.{List, [], ◌∷◌, Memᴰ}
use native.Mathlib.Omega.{arith}
use text.Mathlib.Text.{◌==◌ as str_eq}
use text.Mathlib.TextEquality.{eq_iff}

module _ {A : Type 0} where
  pub length-perm : {xs ys : List A} → Permᴰ xs ys → length xs ≡ length ys
  length-perm Permᴰ.nil = refl
  length-perm (Permᴰ.cons e p) = ap suc (length-perm p)
  length-perm (Permᴰ.swap e f) = refl
  length-perm (Permᴰ.trans p q) = length-perm p ∙ length-perm q

  pub mem-perm : {a : A} {xs ys : List A} → Permᴰ xs ys → Memᴰ a xs → Memᴰ a ys
  mem-perm Permᴰ.nil m = m
  mem-perm (Permᴰ.cons e p) (Memᴰ.head q) = Memᴰ.head (q ∙ e)
  mem-perm (Permᴰ.cons e p) (Memᴰ.tail m) = Memᴰ.tail (mem-perm p m)
  mem-perm (Permᴰ.swap e f) (Memᴰ.head q) = Memᴰ.tail (Memᴰ.head (q ∙ e))
  mem-perm (Permᴰ.swap e f) (Memᴰ.tail (Memᴰ.head q)) = Memᴰ.head (q ∙ f)
  mem-perm (Permᴰ.swap e f) (Memᴰ.tail (Memᴰ.tail m)) = Memᴰ.tail (Memᴰ.tail m)
  mem-perm (Permᴰ.trans p q) m = mem-perm q (mem-perm p m)

  pub mem-select :
      {a : A} (w : A → Bool) (xs : List A) → w a ≡ true → Memᴰ a xs → Memᴰ a (select w xs)
  mem-select w [] h m = elim m [ ]
  mem-select w (x ∷ xs) h (Memᴰ.head e) = rw (← e) (rw h (Memᴰ.head refl))
  mem-select w (x ∷ xs) h (Memᴰ.tail m) = elim (Bool-cases (w x)) [
    | inl e ↦ rw e (Memᴰ.tail (mem-select w xs h m))
    | inr e ↦ rw e (mem-select w xs h m)
  ]

  -- What a test selects is in the list and passes the test.
  pub mem-of_select :
      {a : A} (w : A → Bool) (xs : List A) → Memᴰ a (select w xs) → Memᴰ a xs × (w a ≡ true)
  mem-of_select w [] m = elim m [ ]
  mem-of_select {a} w (x ∷ xs) m = elim (Bool-cases (w x)) [
    | inl e ↦ head_or_tail e (λ i. mem-of_select w xs i) (rw e at m)
    | inr e ↦ (let (i, h) = mem-of_select w xs (rw e at m) in (Memᴰ.tail i, h))
  ]
    where
      head_or_tail :
          w x ≡ true
          → (Memᴰ a (select w xs) → Memᴰ a xs × (w a ≡ true))
          → Memᴰ a (x ∷ select w xs)
          → Memᴰ a (x ∷ xs) × (w a ≡ true)
      head_or_tail e later (Memᴰ.head q) = (Memᴰ.head q, rw q e)
      head_or_tail e later (Memᴰ.tail i) = (let (j, h) = later i in (Memᴰ.tail j, h))

  pub mem_of_count :
      (w : A → Bool) (xs : List A) → 0 < count w xs → (a : A) × Memᴰ a xs × (w a ≡ true)
  mem_of_count w [] h = absurd (omega arith)
  mem_of_count w (x ∷ xs) h = elim (Bool-cases (w x)) [
    | inl e ↦ (x, Memᴰ.head refl, e)
    | inr e ↦ (let (a, m, k) = mem_of_count w xs (rw e at h) in (a, Memᴰ.tail m, k))
  ]

  pub All-of_count : (w : A → Bool) (xs : List A) → count w xs ≡ 0 → All (λ a. w a ≡ false) xs
  All-of_count w [] h = tt
  All-of_count w (x ∷ xs) h = elim (Bool-cases (w x)) [
    | inl e ↦ absurd (ground arith)
    | inr e ↦ (e, All-of_count w xs (rw e at h))
  ]

  -- A write that leaves each row that it finds as it was changes nothing.
  pub update_where_same :
      (w : A → Bool) (f : A → A) (xs : List A)
      → All (λ a. w a ≡ true → f a ≡ a) xs
      → update_where w f xs ≡ xs
  update_where_same w f [] h = refl
  update_where_same w f (x ∷ xs) h = elim (Bool-cases (w x)) [
    | inl e ↦ rw (e, h.0 e, update_where_same w f xs h.1)
    | inr e ↦ rw (e, update_where_same w f xs h.1)
  ]

module _ {A : Type 0} (key : A → String) (v : A → Bool) where
  abbrev pub one_of : String → A → Bool
  one_of k a = v a && str_eq (key a) k

  abbrev pub some_of : List String → A → Bool
  some_of ks a = v a && elem (key a) ks

  count_absent : (k : String) (xs : List A) → All (λ y. key y ≢ k) xs → count (one_of k) xs ≡ 0
  count_absent k [] h = refl
  count_absent k (x ∷ xs) h = ground (arith, count_absent k xs h.1, eq_iff (key x) k)

  pub count_one : (k : String) (xs : List A) → HasDistinctKeys key xs → count (one_of k) xs ≤ 1
  count_one k [] h = omega arith
  count_one k (x ∷ xs) h = elim (Bool-cases (str_eq (key x) k)) [
    | inl e ↦
        let same : key x ≡ k = (eq_iff (key x) k).0 e in
        ground (arith, count_absent k xs (rw same at h.0))
    | inr e ↦ ground (arith, count_one k xs h.1)
  ]

  count_split :
      (k : String) (ks : List String) (xs : List A)
      → count (some_of (k ∷ ks)) xs ≤ count (one_of k) xs + count (some_of ks) xs
  count_split k ks [] = omega arith
  count_split k ks (x ∷ xs) =
      ground (arith, count_split k ks xs, eq_iff (key x) k, eq_iff k (key x))

  count-none : (xs : List A) → count (some_of []) xs ≡ 0
  count-none [] = refl
  count-none (x ∷ xs) = ground (arith, count-none xs)

  -- Among rows with distinct keys, as many keys name at most as many rows.
  pub count-le-length :
      (ks : List String) (xs : List A) → HasDistinctKeys key xs → count (some_of ks) xs ≤ length ks
  count-le-length [] xs h = omega (arith, count-none xs)
  count-le-length (k ∷ ks) xs h =
      omega (arith, count_split k ks xs, count_one k xs h, count-le-length ks xs h)

  -- If they name as many rows as they are, each of them names one.
  pub All-named :
      (ks : List String) (xs : List A)
      → HasDistinctKeys key xs
      → count (some_of ks) xs ≡ length ks
      → All (λ k. (a : A) × Memᴰ a xs × (one_of k a ≡ true)) ks
  All-named [] xs h e = tt
  All-named (k ∷ ks) xs h e = (
    mem_of_count (one_of k) xs (omega (arith, count_split k ks xs, count-le-length ks xs h)),
    All-named ks xs h
        (omega (arith, count_split k ks xs, count_one k xs h, count-le-length ks xs h)),
  )
