-- ===== src/Prisma/Derived.antt =====
-- Operations of the client that are made of those of `Database`.
use fsm_backend.Prelude.{
  ℕ, zero, suc, String, Bool, none, some, List, [], ◌∷◌, str_eq, length, take,
}
use fsm_backend.Errors.{Result, ok, err}
use fsm_backend.Prisma.OrderBy.{Order, unordered}
use fsm_backend.Prisma.Client.{Unique, Database}

-- The constraint of a primary key.
abbrev pub id_unique : {A : Type 0} → (A → String) → List (Unique A)
id_unique id = record { target = "id" ∷ []; clash = λ a b. str_eq (id a) (id b) } ∷ []

abbrev pub drop : {A : Type 0} → ℕ → List A → List A
drop zero xs = xs
drop (suc n) [] = []
drop (suc n) (x ∷ xs) = drop n xs

module _ (p : Database) {A : Type 0} where
  -- `count`: as many rows as `findMany` returns.
  abbrev pub count_rows : (A → Bool) → p.Table A → ℕ
  count_rows w t = length (p.find_many unordered w t)

  -- `findMany` with `skip` and `take`
  abbrev pub find_page : Order A → (A → Bool) → ℕ → ℕ → p.Table A → List A
  find_page o w skip size t = take size (drop skip (p.find_many o w t))

  abbrev pub then_create :
      Result (p.Table A) → (p.Table A → Result (p.Table A)) → Result (p.Table A)
  then_create (ok t) f = f t
  then_create (err e) f = err e

  -- `createMany` without `skipDuplicates`: one statement, so all of the rows or none.
  unfoldable pub create_all : List (Unique A) → List A → p.Table A → Result (p.Table A)
  create_all us [] t = ok t
  create_all us (r ∷ rs) t = then_create (p.create us r t) (create_all us rs)

  -- `upsert`: an update of the row that a unique `where` names, or a new row. The constraints are
  -- those of the table, and those among the columns that the update writes.
  unfoldable pub upsert :
      List (Unique A) → List (Unique A) → (A → Bool) → (A → A) → A → p.Table A → Result (p.Table A)
  upsert us written w f r t = elim (p.find_first unordered w t) [
    | none ↦ p.create us r t
    | some found ↦ p.update written w f t
  ]
