-- ===== src/Prelude/Selecting.antt =====
-- Selections that are made one after the other, and those of equal tests.
use fsm_backend.Prelude.Lists.{select}
use mathlib.Core.Path.{◌≡◌, refl, ap}
use mathlib.Core.Bool.{Bool, true, not, ◌||◌}
use mathlib.Core.List.{List, [], ◌∷◌}
use native.Mathlib.Omega.{arith}

module _ {A : Type 0} where
  pub select-select :
      (v w : A → Bool) (xs : List A)
      → select (λ a. not (w a)) (select (λ a. not (v a)) xs) ≡ select (λ a. not (v a || w a)) xs
  select-select v w [] = refl
  select-select v w (x ∷ xs) = ground (arith, select-select v w xs)

  pub select_all : (xs : List A) → select (λ a. true) xs ≡ xs
  select_all [] = refl
  select_all (x ∷ xs) = ap (λ (ys : List A). x ∷ ys) (select_all xs)

  pub select-cong :
      (v w : A → Bool) → ((a : A) → v a ≡ w a) → (xs : List A) → select v xs ≡ select w xs
  select-cong v w h [] = refl
  select-cong v w h (x ∷ xs) = rw (h x, select-cong v w h xs) refl
