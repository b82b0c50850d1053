-- ===== src/Prelude/Distinct.antt =====
-- Lists of texts without repetitions.
use mathlib.Core.Path.{ap, ◌≡◌, sym}
use mathlib.Core.Logic.{◌⊎◌, inl, inr}
use mathlib.Core.Bool.{true}
use mathlib.Core.List.{List, [], ◌∷◌, Memᴰ, map}
use native.Mathlib.Omega.{arith}
use text.Mathlib.TextEquality.{eq_iff}
use Prim.Native.String.{String}
use text.Mathlib.Text.{◌==◌ as str_eq}
use fsm_backend.Prelude.Tests.{elem, distinct, distinct_from, Bool-cases}

-- Each text is seen already or kept.
mem-distinct_from :
    (k : String) (seen xs : List String)
    → Memᴰ k xs
    → (elem k seen ≡ true) ⊎ Memᴰ k (distinct_from seen xs)
unfolding distinct_from
mem-distinct_from k seen [] m = elim m [ ]
mem-distinct_from k seen (x ∷ xs) (Memᴰ.head q) = elim (Bool-cases (elem x seen)) [
  | inl e ↦ inl (rw q e)
  | inr e ↦ inr (rw e (Memᴰ.head q))
]
mem-distinct_from k seen (x ∷ xs) (Memᴰ.tail n) =
    let later = mem-distinct_from k (x ∷ seen) xs n in
    let here = mem-distinct_from k seen xs n in
    elim (Bool-cases (elem x seen)) [
      | inl e ↦ rw e here
      | inr e ↦ elim later [
        | inr i ↦ inr (rw e (Memᴰ.tail i))
        | inl i ↦ elim (Bool-cases (str_eq x k)) [
          | inl same ↦ inr (rw e (Memᴰ.head (sym ((eq_iff x k).0 same))))
          | inr other ↦ inl (ground arith)
        ]
      ]
    ]

pub mem-distinct : (k : String) (xs : List String) → Memᴰ k xs → Memᴰ k (distinct xs)
unfolding distinct
mem-distinct k xs m = elim (mem-distinct_from k [] xs m) [ inl bad ↦ absurd (cc) | inr i ↦ i ]

pub elem-mem : (k : String) (xs : List String) → Memᴰ k xs → elem k xs ≡ true
elem-mem k [] m = elim m [ ]
elem-mem k (x ∷ xs) (Memᴰ.head e) = (let same = (eq_iff x k).1 (sym e) in rw same)
elem-mem k (x ∷ xs) (Memᴰ.tail m) = ground (arith, elem-mem k xs m)

pub mem-map : {A B : Type 0} (f : A → B) {a : A} (xs : List A) → Memᴰ a xs → Memᴰ (f a) (map f xs)
mem-map f [] m = elim m [ ]
mem-map f (x ∷ xs) (Memᴰ.head e) = Memᴰ.head (ap f e)
mem-map f (x ∷ xs) (Memᴰ.tail m) = Memᴰ.tail (mem-map f xs m)
