-- ===== src/Prelude/Keys.antt =====
-- Lists of rows whose keys are all different.
use Prim.Native.String.{String}
use mathlib.Core.Path.{◌≡◌, sym, ap, ◌∙◌}
use mathlib.Core.Logic.{◌≢◌, inl, inr}
use mathlib.Core.Bool.{Bool, true, false}
use mathlib.Core.List.{List, [], ◌∷◌, ◌++◌, Memᴰ}
use text.Mathlib.Text.{◌==◌ as str_eq}
use text.Mathlib.TextEquality.{eq_iff}
use fsm_backend.Prelude.Tests.{Bool-cases}
use fsm_backend.Prelude.Lists.{All, any, select, update_where, All-mem, All-select}

module _ {A : Type 0} where
  -- `All-update_where` with a second fact about each row at hand.
  pub All-update_where_with :
      (P Q : A → Type 0) (w : A → Bool) (f : A → A) (xs : List A)
      → ((a : A) → w a ≡ true → P a → Q a → P (f a))
      → All P xs
      → All Q xs
      → All P (update_where w f xs)
  All-update_where_with P Q w f [] keep h k = tt
  All-update_where_with P Q w f (x ∷ xs) keep h k = elim (Bool-cases (w x)) [
    | inl e ↦ rw e (keep x e h.0 k.0, All-update_where_with P Q w f xs keep h.1 k.1)
    | inr e ↦ rw e (h.0, All-update_where_with P Q w f xs keep h.1 k.1)
  ]

  -- What holds of the rows that a write leaves, and of the written rows.
  pub All-written :
      (P Q : A → Type 0) (w : A → Bool) (f : A → A) (xs : List A)
      → ((a : A) → w a ≡ true → Q a → P (f a))
      → ((a : A) → w a ≡ false → Q a → P a)
      → All Q xs
      → All P (update_where w f xs)
  All-written P Q w f [] hit miss h = tt
  All-written P Q w f (x ∷ xs) hit miss h = elim (Bool-cases (w x)) [
    | inl e ↦ rw e (hit x e h.0, All-written P Q w f xs hit miss h.1)
    | inr e ↦ rw e (miss x e h.0, All-written P Q w f xs hit miss h.1)
  ]

  pub All-imp : (P Q : A → Type 0) (xs : List A) → ((a : A) → P a → Q a) → All P xs → All Q xs
  All-imp P Q [] f h = tt
  All-imp P Q (x ∷ xs) f h = (f x h.0, All-imp P Q xs f h.1)

module _ {A : Type 0} (key : A → String) where
  abbrev pub HasDistinctKeys : List A → Type 0
  HasDistinctKeys [] = Unit
  HasDistinctKeys (x ∷ xs) = All (λ y. key y ≢ key x) xs × HasDistinctKeys xs

  -- A row is the only one with its key.
  pub HasDistinctKeys-mem :
      {r : A} (xs : List A) → HasDistinctKeys xs → Memᴰ r xs → All (λ a. key a ≡ key r → a ≡ r) xs
  HasDistinctKeys-mem [] h m = tt
  HasDistinctKeys-mem {r} (x ∷ xs) h (Memᴰ.head e) = (
    (λ q. sym e),
    All-imp (λ y. key y ≢ key x) (λ a. key a ≡ key r → a ≡ r) xs
        (λ a ne q. absurd (ne (q ∙ ap key e))) h.0,
  )
  HasDistinctKeys-mem {r} (x ∷ xs) h (Memᴰ.tail m) =
      ((λ q. absurd (All-mem (λ y. key y ≢ key x) xs h.0 m (sym q))), HasDistinctKeys-mem xs h.1 m)

  All-ne_update_where :
      (k : String) (w : A → Bool) (f : A → A) (xs : List A)
      → ((a : A) → key (f a) ≡ key a)
      → All (λ y. key y ≢ k) xs
      → All (λ y. key y ≢ k) (update_where w f xs)
  All-ne_update_where k w f [] keep h = tt
  All-ne_update_where k w f (x ∷ xs) keep h = elim (Bool-cases (w x)) [
    | inl e ↦ rw e ((λ q. h.0 (sym (keep x) ∙ q)), All-ne_update_where k w f xs keep h.1)
    | inr e ↦ rw e (h.0, All-ne_update_where k w f xs keep h.1)
  ]

  pub HasDistinctKeys-update_where :
      (w : A → Bool) (f : A → A) (xs : List A)
      → ((a : A) → key (f a) ≡ key a)
      → HasDistinctKeys xs
      → HasDistinctKeys (update_where w f xs)
  HasDistinctKeys-update_where w f [] keep h = tt
  HasDistinctKeys-update_where w f (x ∷ xs) keep h = elim (Bool-cases (w x)) [
    | inl e ↦ rw e (
      rw (keep x) (All-ne_update_where (key x) w f xs keep h.0),
      HasDistinctKeys-update_where w f xs keep h.1,
    )
    | inr e ↦
        rw e (
          All-ne_update_where (key x) w f xs keep h.0,
          HasDistinctKeys-update_where w f xs keep h.1,
        )
  ]

  pub HasDistinctKeys-select :
      (w : A → Bool) (xs : List A) → HasDistinctKeys xs → HasDistinctKeys (select w xs)
  HasDistinctKeys-select w [] h = tt
  HasDistinctKeys-select w (x ∷ xs) h = elim (Bool-cases (w x)) [
    | inl e ↦ rw e (All-select (λ y. key y ≢ key x) w xs h.0, HasDistinctKeys-select w xs h.1)
    | inr e ↦ rw e (HasDistinctKeys-select w xs h.1)
  ]

  All-ne_append :
      (k : String) (xs : List A) (r : A)
      → key r ≢ k
      → All (λ y. key y ≢ k) xs
      → All (λ y. key y ≢ k) (xs ++ r ∷ [])
  All-ne_append k [] r n h = (n, tt)
  All-ne_append k (x ∷ xs) r n h = (h.0, All-ne_append k xs r n h.1)

  pub HasDistinctKeys-append :
      (xs : List A) (r : A)
      → All (λ y. key y ≢ key r) xs
      → HasDistinctKeys xs
      → HasDistinctKeys (xs ++ r ∷ [])
  HasDistinctKeys-append [] r n h = (tt, tt)
  HasDistinctKeys-append (x ∷ xs) r n h =
      (All-ne_append (key x) xs r (λ q. n.0 (sym q)) h.0, HasDistinctKeys-append xs r n.1 h.1)

  -- A row that the key's constraint lets in has a new key.
  pub All-ne_of_any :
      (r : A) (xs : List A)
      → any (λ y. str_eq (key r) (key y)) xs ≡ false
      → All (λ y. key y ≢ key r) xs
  All-ne_of_any r [] h = tt
  All-ne_of_any r (x ∷ xs) h = elim (Bool-cases (str_eq (key r) (key x))) [
    | inl e ↦ (let bad : true ≡ false = rw (e) at h in cc)
    | inr e ↦
        ((λ q. (let y = (eq_iff (key r) (key x)).1 (sym q) in cc)), All-ne_of_any r xs (rw e at h))
  ]
