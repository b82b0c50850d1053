-- ===== src/Prisma/Lemmas.antt =====
-- Consequences of the database's laws.
use fsm_backend.Prelude.{
  mem-append_last, mem-written, String, List, ◌∷◌, ◌++◌, sym, ◌∙◌, All-mem, is_some, refl, ◌≡◌, ◌⊎◌,
  inl, inr, Bool, true, false, none, some, [], Memᴰ, any-mem, update_where, All, mem-perm,
  mem-of_select,
}
use fsm_backend.Errors.{Thrown, ok}
use fsm_backend.Prisma.OrderBy.{Order, unordered}
use mathlib.Core.List
use fsm_backend.Prisma.Client.{Database, Unique}
use fsm_backend.Prisma.Derived.{create_all, upsert}
use fsm_backend.Errors.{prisma, p2002, err}

module _ (p : Database) {A : Type 0} where
  -- An `update` that writes no unique column succeeds if its row is there.
  pub update_free :
      (w : A → Bool) (f : A → A) (t : p.Table A) {r : A}
      → w r ≡ true
      → Memᴰ r (p.rows t)
      → (t' : p.Table A) × (p.update [] w f t ≡ ok t') × (p.rows t' ≡ update_where w f (p.rows t))
  update_free w f t h m = elim (p.update_law [] w f t) [
    | inl (t', e, a, c, q) ↦ (t', e, q)
    | inr (inl (e, a)) ↦ (let b = any-mem w (p.rows t) h m in cc)
    | inr (inr (u, r, e, i, _, _, _)) ↦ elim i [ ]
  ]

  -- `findFirst` by its two cases: nothing matches, or a matching row is returned.
  pub find_first-cases :
      (o : Order A) (w : A → Bool) (t : p.Table A)
      → ((p.find_first o w t ≡ none) × All (λ r. w r ≡ false) (p.rows t))
        ⊎ ((r : A) × (p.find_first o w t ≡ some r) × (w r ≡ true) × Memᴰ r (p.rows t))
  find_first-cases o w t = elim (p.find_first_law o w t) [
    | inl h ↦ inl h
    | inr (r, e, h, m, l) ↦ inr (r, e, h, m)
  ]

  -- What `findMany` returns is in the table and matches.
  pub mem-find_many :
      (o : Order A) (w : A → Bool) (t : p.Table A) {a : A}
      → Memᴰ a (p.find_many o w t)
      → Memᴰ a (p.rows t) × (w a ≡ true)
  mem-find_many o w t m = mem-of_select w (p.rows t) (mem-perm (p.find_many_perm o w t) m)

  -- `Boolean(await findFirst(…))`: is there a row that matches?
  pub find_first-is_some :
      (o : Order A) (w : A → Bool) (t : p.Table A)
      → is_some (p.find_first o w t) ≡ true
      → (r : A) × Memᴰ r (p.rows t) × (w r ≡ true)
  find_first-is_some o w t h = elim (find_first-cases o w t) [
    | inl (e, _) ↦ absurd (let bad = (rw e at h) in cc)
    | inr (r, e, q, m) ↦ (r, m, q)
  ]

  pub is_some-find_first :
      (o : Order A) (w : A → Bool) (t : p.Table A) (r : A)
      → Memᴰ r (p.rows t)
      → w r ≡ true
      → is_some (p.find_first o w t) ≡ true
  is_some-find_first o w t r m q = elim (find_first-cases o w t) [
    | inl (_, h) ↦ absurd (let no = All-mem (λ a. w a ≡ false) (p.rows t) h m in cc)
    | inr (_, e, _, _) ↦ rw e refl
  ]

  -- All the rows are added, or none.
  pub create_all-cases :
      (us : List (Unique A)) (new : List A) (t : p.Table A)
      → ((target : List String) × (create_all p us new t ≡ err (prisma (p2002 target))))
        ⊎ ((u : p.Table A) × (create_all p us new t ≡ ok u) × (p.rows u ≡ p.rows t ++ new))
  unfolding create_all
  create_all-cases us [] t = inr (t, refl, sym (List.append-nil (p.rows t)))
  create_all-cases us (r ∷ rs) t = elim (p.create_law us r t) [
    | inr (u, e, _, _) ↦ inl (u.target, rw e)
    | inl (t1, e, _, q) ↦ elim (create_all-cases us rs t1) [
      | inl (x, bad) ↦ inl (x, rw (e, bad))
      | inr (v, good, k) ↦
          inr (v, rw (e, good), k ∙ rw q (List.append_assoc (p.rows t) (r ∷ []) rs))
    ]
  ]

  -- An `upsert` that writes no unique column fails, or its row is there: the new one, or one that
  -- matched as it is written.
  pub upsert-cases :
      (us : List (Unique A)) (w : A → Bool) (f : A → A) (r : A) (t : p.Table A)
      → ((e : Thrown) × (upsert p us [] w f r t ≡ err e))
        ⊎ ((u : p.Table A) × (a : A) × (upsert p us [] w f r t ≡ ok u)
            × Memᴰ a (p.rows u)
            × ((a ≡ r) ⊎ ((b : A) × (w b ≡ true) × (a ≡ f b))))
  unfolding upsert
  upsert-cases us w f r t = elim (find_first-cases unordered w t) [
    | inl (e, _) ↦ elim (p.create_law us r t) [
      | inr (u, g, _, _) ↦ inl (prisma (p2002 u.target), rw (upsert, e, g))
      | inl (u, g, _, q) ↦
          inr (u, r, rw (upsert, e, g), rw q (mem-append_last (p.rows t) r), inl refl)
    ]
    | inr (b, e, h, m) ↦
        let (u, g, q) = update_free w f t h m in
        inr (u, f b, rw (upsert, e, g), rw q (mem-written w f (p.rows t) h m), inr (b, h, refl))
  ]
