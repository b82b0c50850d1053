-- ===== src/Prisma/Client.antt =====
-- The database client, `prisma`, which is not part of the repository: a record of the operations
-- that the services call, with laws that state their documented behaviour.
use fsm_backend.Prelude.{
  ℕ, String, ◌≡◌, ◌⊎◌, Bool, true, false, not, Option, none, some, List, ◌++◌, [], ◌∷◌, Memᴰ,
  select, count, any, update_where, All, if◌then◌else◌,
}
use mathlib.Core.List.{Permᴰ}
use fsm_backend.Prisma.OrderBy.{Order}
use fsm_backend.Errors.{prisma, p2002, p2025, Result, ok, err}

-- A unique constraint of a table: its columns, and when two rows agree on them (a null agrees with
-- nothing).
pub record Unique (A : Type 0) : Type 0 where
  pub target : List String
  pub clash : A → A → Bool

module _ {A : Type 0} where
  -- Does a row violate some constraint against rows of a table?
  abbrev pub clashes : List (Unique A) → A → List A → Bool
  clashes [] r rs = false
  clashes (u ∷ us) r rs = if any (u.clash r) rs then true else clashes us r rs

  -- `INSERT … ON CONFLICT DO NOTHING`, row by row.
  abbrev pub insert_new : List (Unique A) → List A → List A → List A
  insert_new us [] rs = rs
  insert_new us (r ∷ new) rs = insert_new us new (if clashes us r rs then rs else rs ++ r ∷ [])

  -- Adjacent rows are in the order of a query's `orderBy`.
  abbrev pub IsOrdered : Order A → List A → Type 0
  IsOrdered o [] = Unit
  IsOrdered o (r ∷ rs) = All (λ s. o.le r s ≡ true) rs × IsOrdered o rs

-- `rows` is the content of a table in the order in which the rows were created. It is for the laws:
-- no service reads it. A `where` clause is a test on rows, an `orderBy` clause is a comparison.
pub record Database : Type 1 where
  pub Table : Type 0 → Type 0
  pub rows : {A : Type 0} → Table A → List A
  pub find_first : {A : Type 0} → Order A → (A → Bool) → Table A → Option A
  pub find_many : {A : Type 0} → Order A → (A → Bool) → Table A → List A
  pub create : {A : Type 0} → List (Unique A) → A → Table A → Result (Table A)
  pub create_many : {A : Type 0} → List (Unique A) → List A → Table A → Table A
  pub update : {A : Type 0} → List (Unique A) → (A → Bool) → (A → A) → Table A → Result (Table A)
  pub update_many : {A : Type 0} → (A → Bool) → (A → A) → Table A → Table A × ℕ
  pub delete_many : {A : Type 0} → (A → Bool) → Table A → Table A × ℕ
  -- `findFirst` returns a row that matches and comes first in the order, or null if none matches.
  pub find_first_law :
      {A : Type 0} (o : Order A) (w : A → Bool) (t : Table A)
      → ((find_first o w t ≡ none) × All (λ r. w r ≡ false) (rows t))
        ⊎ ((r : A) × (find_first o w t ≡ some r)
            × (w r ≡ true)
            × Memᴰ r (rows t)
            × All (λ s. w s ≡ true → o.le r s ≡ true) (rows t))
  -- `findMany` returns the rows that match, each once, in the order.
  pub find_many_perm :
      {A : Type 0} (o : Order A) (w : A → Bool) (t : Table A)
      → Permᴰ (find_many o w t) (select w (rows t))
  pub find_many_ordered :
      {A : Type 0} (o : Order A) (w : A → Bool) (t : Table A) → IsOrdered o (find_many o w t)
  -- `create` adds the row, or fails with P2002 if a unique constraint would be violated.
  pub create_law :
      {A : Type 0} (us : List (Unique A)) (r : A) (t : Table A)
      → ((t' : Table A) × (create us r t ≡ ok t')
          × (clashes us r (rows t) ≡ false)
          × (rows t' ≡ rows t ++ r ∷ []))
        ⊎ ((u : Unique A) × (create us r t ≡ err (prisma (p2002 u.target)))
            × Memᴰ u us
            × (any (u.clash r) (rows t) ≡ true))
  -- `createMany` with `skipDuplicates`.
  pub create_many_law :
      {A : Type 0} (us : List (Unique A)) (new : List A) (t : Table A)
      → rows (create_many us new t) ≡ insert_new us new (rows t)
  -- `update` of the row that a unique `where` names: P2025 if there is none, P2002 if the row as
  -- written would agree with another one on a unique constraint among the columns written.
  pub update_law :
      {A : Type 0} (us : List (Unique A)) (w : A → Bool) (f : A → A) (t : Table A)
      → ((t' : Table A) × (update us w f t ≡ ok t')
          × (any w (rows t) ≡ true)
          × All
              (λ r. w r ≡ true → clashes us (f r) (select (λ s. not (w s)) (rows t)) ≡ false)
              (rows t)
          × (rows t' ≡ update_where w f (rows t)))
        ⊎ ((update us w f t ≡ err (prisma p2025)) × (any w (rows t) ≡ false))
        ⊎ ((u : Unique A) × (r : A) × (update us w f t ≡ err (prisma (p2002 u.target)))
            × Memᴰ u us
            × Memᴰ r (rows t)
            × (w r ≡ true)
            × (any (u.clash (f r)) (select (λ s. not (w s)) (rows t)) ≡ true))
  -- `updateMany` writes every row that matches, and returns their number.
  pub update_many_law :
      {A : Type 0} (w : A → Bool) (f : A → A) (t : Table A)
      → (rows (update_many w f t).0 ≡ update_where w f (rows t))
        × ((update_many w f t).1 ≡ count w (rows t))
  -- `deleteMany` removes every row that matches, and returns their number.
  pub delete_many_law :
      {A : Type 0} (w : A → Bool) (t : Table A)
      → (rows (delete_many w t).0 ≡ select (λ r. not (w r)) (rows t))
        × ((delete_many w t).1 ≡ count w (rows t))
