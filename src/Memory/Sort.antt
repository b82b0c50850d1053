-- ===== src/Memory/Sort.antt =====
-- Sorting rows by a query's order.
use mathlib.Core.List.{Permᴰ}
use mathlib.Core.List.Permᴰ
use fsm_backend.Prelude.{
  ◌≡◌, refl, inl, inr, true, false, List, [], ◌∷◌, All, if◌then◌else◌, Bool-cases, arith,
}
use fsm_backend.Prisma.{Order, IsOrdered}

module _ {A : Type 0} (o : Order A) where
  insert_by : A → List A → List A
  insert_by a [] = a ∷ []
  insert_by a (b ∷ bs) = if o.le a b then a ∷ b ∷ bs else b ∷ insert_by a bs

  unfoldable pub sort_by : List A → List A
  unfolding insert_by
  sort_by [] = []
  sort_by (a ∷ rs) = insert_by a (sort_by rs)

  le_of_not : (a b : A) → o.le a b ≡ false → o.le b a ≡ true
  le_of_not a b h = ground (arith, o.total a b)

  insert_by-perm : (a : A) (bs : List A) → Permᴰ (insert_by a bs) (a ∷ bs)
  unfolding insert_by
  insert_by-perm a [] = Permᴰ.refl _
  insert_by-perm a (b ∷ bs) = elim (Bool-cases (o.le a b)) [
    | inl e ↦ rw e (Permᴰ.refl _)
    | inr e ↦ rw e (Permᴰ.trans (Permᴰ.cons refl (insert_by-perm a bs)) (Permᴰ.swap refl refl))
  ]

  pub sort_by-perm : (rs : List A) → Permᴰ (sort_by rs) rs
  unfolding sort_by
  sort_by-perm [] = Permᴰ.nil
  sort_by-perm (a ∷ rs) =
      Permᴰ.trans (insert_by-perm a (sort_by rs)) (Permᴰ.cons refl (sort_by-perm rs))

  All-insert_by : (P : A → Type 0) (a : A) (bs : List A) → P a → All P bs → All P (insert_by a bs)
  unfolding insert_by
  All-insert_by P a [] p h = (p, tt)
  All-insert_by P a (b ∷ bs) p h = elim (Bool-cases (o.le a b)) [
    | inl e ↦ rw e (p, h)
    | inr e ↦ rw e (h.0, All-insert_by P a bs p h.1)
  ]

  All-le_trans :
      (a b : A) (bs : List A)
      → o.le a b ≡ true
      → All (λ s. o.le b s ≡ true) bs
      → All (λ s. o.le a s ≡ true) bs
  All-le_trans a b [] h k = tt
  All-le_trans a b (c ∷ bs) h k = (o.trans a b c h k.0, All-le_trans a b bs h k.1)

  insert_by-IsOrdered : (a : A) (bs : List A) → IsOrdered o bs → IsOrdered o (insert_by a bs)
  unfolding insert_by
  insert_by-IsOrdered a [] h = (tt, tt)
  insert_by-IsOrdered a (b ∷ bs) h = elim (Bool-cases (o.le a b)) [
    | inl e ↦ rw e ((e, All-le_trans a b bs e h.0), h)
    | inr e ↦ rw e (All-insert_by _ a bs (le_of_not a b e) h.0, insert_by-IsOrdered a bs h.1)
  ]

  pub sort_by-IsOrdered : (rs : List A) → IsOrdered o (sort_by rs)
  unfolding sort_by
  sort_by-IsOrdered [] = tt
  sort_by-IsOrdered (a ∷ rs) = insert_by-IsOrdered a (sort_by rs) (sort_by-IsOrdered rs)
