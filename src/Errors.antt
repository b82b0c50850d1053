-- ===== src/Errors.antt =====
-- What a service throws, and the state-and-exception monad that its functions run in.
-- shared/errors.ts
use fsm_backend.Prelude.{
  ℕ, String, ◌≡◌, refl, ◌⊎◌, inl, inr, Bool, true, false, List, Option, none, some, elem,
  if◌then◌else◌,
}

-- `AppError`; every error of the services leaves `expose` at its default `true`.
pub record AppError : Type 0 where
  pub message : String
  pub status_code : ℕ
  pub code : String

-- The two errors of the database client that the source tells apart: P2002 (a unique constraint
-- is violated; with the `meta.target` columns) and P2025 (no record to write).
pub data PrismaError : Type 0 where
  p2002 : List String → PrismaError
  p2025 : PrismaError

pub data Thrown : Type 0 where
  app : AppError → Thrown
  prisma : PrismaError → Thrown
  plain : String → Thrown

pub data Result (A : Type 0) : Type 0 where
  ok : A → Result A
  err : Thrown → Result A

-- A function of a service over a store: an exception keeps what was written before it.
abbrev pub M : Type 0 → Type 0 → Type 0
M S A = S → Result A × S

abbrev pub bind_result : {S A B : Type 0} → Result A × S → (A → M S B) → Result B × S
bind_result (ok a, s) f = f a s
bind_result (err e, s) f = (err e, s)

infixl 5 ◌>>=◌ ◌>>◌
abbrev pub ◌>>=◌ : {S A B : Type 0} → M S A → (A → M S B) → M S B
◌>>=◌ m f s = bind_result (m s) f

abbrev pub ◌>>◌ : {S A B : Type 0} → M S A → M S B → M S B
◌>>◌ m k s = bind_result (m s) (λ _. k)

abbrev pub return : {S A : Type 0} → A → M S A
return a s = (ok a, s)

abbrev pub throw : {S A : Type 0} → Thrown → M S A
throw e s = (err e, s)

-- `if (o is missing) throw e`
abbrev pub require : {S A : Type 0} → Option A → Thrown → M S A
require none e s = (err e, s)
require (some a) e s = (ok a, s)

-- `if (!b) throw e`
abbrev pub guard : {S : Type 0} → Bool → Thrown → M S (Unit {0})
guard true e s = (ok tt, s)
guard false e s = (err e, s)

abbrev pub rollback : {S A : Type 0} → S → Result A × S → Result A × S
rollback s (ok a, s') = (ok a, s')
rollback s (err e, s') = (err e, s)

-- `prisma.$transaction`: an exception undoes the writes made inside.
abbrev pub transaction : {S A : Type 0} → M S A → M S A
transaction m s = rollback s (m s)

-- Read the store.
abbrev pub gets : {S A : Type 0} → (S → A) → M S A
gets f s = (ok (f s), s)

-- The result of one write: the store with the new table, or the error and the store as it was.
abbrev pub commit : {S T : Type 0} → S → (T → S) → Result T → Result (Unit {0}) × S
commit s put (ok t) = (ok tt, put t)
commit s put (err e) = (err e, s)

pub Result-cases :
    {A : Type 0} (r : Result A) → ((a : A) × (r ≡ ok a)) ⊎ ((e : Thrown) × (r ≡ err e))
Result-cases (ok a) = inl (a, refl)
Result-cases (err e) = inr (e, refl)

-- `isUniqueConstraintError`: a P2002 whose target names a column. The services define it in the
-- same words: modules/scheduling/bookings.service.ts, routes.service.ts, statuses.service.ts.
abbrev pub is_unique_constraint_error : Thrown → String → Bool
is_unique_constraint_error (app e) field = false
is_unique_constraint_error (plain e) field = false
is_unique_constraint_error (prisma p2025) field = false
is_unique_constraint_error (prisma (p2002 target)) field = elem field target

-- `catch (err) { if (isUniqueConstraintError(err, field)) throw instead; throw err; }`
abbrev pub catch_unique : {S A : Type 0} → String → Thrown → Result A × S → Result A × S
catch_unique field instead (ok a, s) = (ok a, s)
catch_unique field instead (err e, s) =
    (err (if is_unique_constraint_error e field then instead else e), s)
