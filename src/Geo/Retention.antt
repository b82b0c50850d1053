-- ===== src/Geo/Retention.antt =====
-- Which pings a cleanup keeps. jobs/geoPingCleanup.ts
use mathlib.Core.List.{Permᴰ}
use fsm_backend.Prelude.{
  eq_iff, inl, str_eq, inr, Bool-cases, ◌*◌, ◌≤◌, suc, ◌⊎◌, false, some, ◌≢◌, Option, ◌↔◌, ltb, All,
  select-select, select-cong, select_all, none, some, zero, suc, false, Option, max, or_else, ℕ,
  ◌+◌, Bool, true, not, List, [], ◌∷◌, ◌≡◌, refl, sym, ◌∙◌, ap, any, select, count, length, arith,
}
use fsm_backend.Prisma.{Database, unordered}
use fsm_backend.Geo.Types.{Organization, GeoPing, Store}
use fsm_backend.Geo.Cleanup.{cutoff, is_expired, cleanup_each, cleanup_geo_pings}

any-perm : {A : Type 0} (v : A → Bool) {xs ys : List A} → Permᴰ xs ys → any v xs ≡ any v ys
any-perm v Permᴰ.nil = refl
any-perm v (Permᴰ.cons e q) = rw (e, any-perm v q)
any-perm v (Permᴰ.swap e f) = rw (e, f) (ground arith)
any-perm v (Permᴰ.trans q r) = any-perm v q ∙ any-perm v r

length_of_rest :
    {A : Type 0} (w : A → Bool) (xs : List A)
    → count w xs + length (select (λ a. not (w a)) xs) ≡ length xs
length_of_rest w [] = refl
length_of_rest w (x ∷ xs) = ground (arith, length_of_rest w xs)

-- The days for which an organization keeps its pings.
abbrev pub kept_days : Option ℕ → ℕ
kept_days none = 365
kept_days (some zero) = 1
kept_days (some (suc n)) = suc n

retention_days-kept_days : (d : Option ℕ) → max 1 (or_else d 365) ≡ kept_days d
retention_days-kept_days none = refl
retention_days-kept_days (some zero) = refl
retention_days-kept_days (some (suc n)) = omega arith

cutoff-kept_days :
    (reference t : ℕ) (o : Organization)
    → (ltb t (cutoff reference o) ≡ false)
      ↔ (reference ≤ t + kept_days o.geo_retention_days * 86400000)
cutoff-kept_days reference t o =
    let days = retention_days-kept_days o.geo_retention_days in
    (λ h. ground (arith, days, h), λ h. ground (arith, days, h))

module _ (F : Type 0) (p : Database) (reference : ℕ) where
  -- Every organization that the ping is of retains it: a year where it does not say how many days,
  -- and a day at least.
  abbrev pub IsRetained : List Organization → GeoPing F → Type 0
  IsRetained os g =
      All
        (λ o.
          (o.id ≢ g.org_id)
          ⊎ (reference ≤ g.recorded_at + kept_days o.geo_retention_days * 86400000))
        os

  -- A ping is kept unless some organization, its own, no longer retains it.
  abbrev pub is_kept : List Organization → GeoPing F → Bool
  is_kept os g = not (any (is_expired F reference g) os)

  cleanup_each-select :
      (os : List Organization) (t : p.Table (GeoPing F)) (n : ℕ)
      → (p.rows (cleanup_each F p reference os t n).0 ≡ select (is_kept os) (p.rows t))
        × ((cleanup_each F p reference os t n).1
              + length (p.rows (cleanup_each F p reference os t n).0)
            ≡ n + length (p.rows t))
  unfolding cleanup_each
  cleanup_each-select [] t n = (sym (select_all (p.rows t)), refl)
  cleanup_each-select (o ∷ os) t n =
      let w : GeoPing F → Bool = λ g. is_expired F reference g o in
      let (kept, removed) = p.delete_many_law w t in
      let (rest, total) =
        cleanup_each-select os (p.delete_many w t).0 (n + (p.delete_many w t).1) in
      (
        rest ∙ rw kept (select-select w (λ g. any (is_expired F reference g) os) (p.rows t)),
        total ∙ rw (kept, removed) (omega (arith, length_of_rest w (p.rows t))),
      )

  is_expired-IsRetained :
      (o : Organization) (g : GeoPing F)
      → (is_expired F reference g o ≡ false)
        ↔ (o.id ≢ g.org_id)
          ⊎ (reference ≤ g.recorded_at + kept_days o.geo_retention_days * 86400000)
  is_expired-IsRetained o g = elim (Bool-cases (str_eq g.org_id o.id)) [
    | inl e ↦
        let same = (eq_iff g.org_id o.id).0 e in
        let old = cutoff-kept_days reference g.recorded_at o in
        (
          λ h. inr (old.0 (rw e at h)),
          λ h. elim h [ inl d ↦ absurd (d (sym same)) | inr l ↦ rw e (old.1 l) ],
        )
    | inr e ↦
        (λ h. inl (λ q. absurd (let k = (eq_iff g.org_id o.id).1 (sym q) in cc)), λ h. rw e refl)
  ]

  is_kept-IsRetained :
      (os : List Organization) (g : GeoPing F) → (is_kept os g ≡ true) ↔ IsRetained os g
  is_kept-IsRetained [] g = (λ h. tt, λ h. refl)
  is_kept-IsRetained (o ∷ os) g =
      let (here, there) = is_expired-IsRetained o g in
      let (rest, back) = is_kept-IsRetained os g in
      elim (Bool-cases (is_expired F reference g o)) [
        | inr e ↦ (λ h. (here e, rest (rw e at h)), λ h. rw e (back h.1))
        | inl e ↦ (
          λ h. absurd (let k : false ≡ true = (rw e at h) in cc),
          λ h. absurd (let k = there h.0 in cc),
        )
      ]

  -- A cleanup leaves exactly the pings that each organization with the ping's organization id
  -- retains, in their order: those recorded within its days of retention before the reference
  -- time, where those are 365 if it says none and 1 if it says 0; the number returned is that of
  -- the pings removed.
  pub cleanup-IsRetained :
      (s : Store F p)
      → (kept : GeoPing F → Bool) × (p.rows (cleanup_geo_pings F p reference s).0.pings
          ≡ select kept (p.rows s.pings))
        × ((g : GeoPing F) → (kept g ≡ true) ↔ IsRetained (p.rows s.organizations) g)
        × ((cleanup_geo_pings F p reference s).1
              + length (p.rows (cleanup_geo_pings F p reference s).0.pings)
            ≡ length (p.rows s.pings))
  unfolding cleanup_geo_pings
  cleanup-IsRetained s =
      let os = p.find_many unordered (λ (o : Organization). true) s.organizations in
      let (rest, total) = cleanup_each-select os s.pings 0 in
      (
        is_kept (p.rows s.organizations),
        rest ∙ select-cong _ _ (λ g. same_kept g) (p.rows s.pings),
        is_kept-IsRetained (p.rows s.organizations),
        omega (arith, total),
      )
    where
      same_kept :
          (g : GeoPing F)
          → is_kept (p.find_many unordered (λ (o : Organization). true) s.organizations) g
            ≡ is_kept (p.rows s.organizations) g
      same_kept g = ap not (
          any-perm (is_expired F reference g)
            (p.find_many_perm unordered (λ (o : Organization). true) s.organizations)
          ∙ ap (any (is_expired F reference g)) (select_all (p.rows s.organizations)))
