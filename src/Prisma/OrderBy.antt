-- ===== src/Prisma/OrderBy.antt =====
-- The `orderBy` clauses of queries: total orders on the rows of a table, given by their keys.
use fsm_backend.Prelude.{
  Option, none, some, Option, ℕ, ◌≡◌, refl, ◌⊎◌, inl, Bool, true, false, ◌&&◌, ◌||◌, arith, leb,
  ltb, ◌==◌,
}

pub record Order (A : Type 0) : Type 0 where
  pub le : A → A → Bool
  pub total : (a b : A) → (le a b ≡ true) ⊎ (le b a ≡ true)
  pub trans : (a b c : A) → le a b ≡ true → le b c ≡ true → le a c ≡ true

pub leb_total : (m n : ℕ) → (leb m n ≡ true) ⊎ (leb n m ≡ true)
leb_total m n = ground arith

pub leb_trans : (m n k : ℕ) → leb m n ≡ true → leb n k ≡ true → leb m k ≡ true
leb_trans m n k p q = ground arith

abbrev pub lex : ℕ → ℕ → ℕ → ℕ → Bool
lex m m' n n' = ltb m n || (m == n && leb m' n')

pub lex_total : (m m' n n' : ℕ) → (lex m m' n n' ≡ true) ⊎ (lex n n' m m' ≡ true)
lex_total m m' n n' = ground arith

pub lex_trans :
    (m m' n n' k k' : ℕ) → lex m m' n n' ≡ true → lex n n' k k' ≡ true → lex m m' k k' ≡ true
lex_trans m m' n n' k k' p q = ground arith

module _ {A : Type 0} where
  -- No `orderBy`: any order will do.
  abbrev pub unordered : Order A
  unordered = record { le = λ a b. true; total = λ a b. inl refl; trans = λ a b c p q. refl }

  -- `orderBy: { key: "asc" }`
  abbrev pub ascending : (A → ℕ) → Order A
  ascending f = record {
    le = λ a b. leb (f a) (f b);
    total = λ a b. leb_total (f a) (f b);
    trans = λ a b c p q. leb_trans (f a) (f b) (f c) p q;
  }

  -- `orderBy: { key: "desc" }`
  abbrev pub descending : (A → ℕ) → Order A
  descending f = record {
    le = λ a b. leb (f b) (f a);
    total = λ a b. leb_total (f b) (f a);
    trans = λ a b c p q. leb_trans (f c) (f b) (f a) q p;
  }

  -- `orderBy: [{ key: "asc" }, { other: "asc" }]`
  abbrev pub ascending_then : (A → ℕ) → (A → ℕ) → Order A
  ascending_then f g = record {
    le = λ a b. lex (f a) (g a) (f b) (g b);
    total = λ a b. lex_total (f a) (g a) (f b) (g b);
    trans = λ a b c p q. lex_trans (f a) (g a) (f b) (g b) (f c) (g c) p q;
  }

  -- `orderBy: [{ key: "desc" }, { other: "desc" }]`
  abbrev pub descending_then : (A → ℕ) → (A → ℕ) → Order A
  descending_then f g = record {
    le = λ a b. lex (f b) (g b) (f a) (g a);
    total = λ a b. lex_total (f b) (g b) (f a) (g a);
    trans = λ a b c p q. lex_trans (f c) (g c) (f b) (g b) (f a) (g a) q p;
  }

-- Two keys, the first of which may be null: nulls come last, as they do in PostgreSQL.
abbrev pub lex_null : Option ℕ → ℕ → Option ℕ → ℕ → Bool
lex_null (some m) m' (some n) n' = lex m m' n n'
lex_null (some m) m' none n' = true
lex_null none m' (some n) n' = false
lex_null none m' none n' = leb m' n'

pub lex_null_total :
    (m : Option ℕ) (m' : ℕ) (n : Option ℕ) (n' : ℕ)
    → (lex_null m m' n n' ≡ true) ⊎ (lex_null n n' m m' ≡ true)
lex_null_total m m' n n' = ground arith

pub lex_null_trans :
    (m : Option ℕ) (m' : ℕ) (n : Option ℕ) (n' : ℕ) (k : Option ℕ) (k' : ℕ)
    → lex_null m m' n n' ≡ true
    → lex_null n n' k k' ≡ true
    → lex_null m m' k k' ≡ true
lex_null_trans m m' n n' k k' p q = ground arith

-- `orderBy: [{ key: "asc" }, { other: "asc" }]`, where `key` may be null
abbrev pub ascending_null_then : {A : Type 0} → (A → Option ℕ) → (A → ℕ) → Order A
ascending_null_then f g = record {
  le = λ a b. lex_null (f a) (g a) (f b) (g b);
  total = λ a b. lex_null_total (f a) (g a) (f b) (g b);
  trans = λ a b c p q. lex_null_trans (f a) (g a) (f b) (g b) (f c) (g c) p q;
}
