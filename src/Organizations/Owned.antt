-- ===== src/Organizations/Owned.antt =====
-- A new organization has an owner. modules/organizations/organizations.service.ts
use fsm_backend.Prelude.{
  ◌<◌, ◌+◌, arith, ℕ, zero, suc, String, true, false, ◌≡◌, ◌⊎◌, ◌++◌, refl, inl, inr, [], ◌∷◌,
  Bool-cases, ap,
}
use fsm_backend.Errors.{Result, Thrown, prisma, p2002, ok, err, is_unique_constraint_error}
use fsm_backend.Prisma.{Database, clashes}
use fsm_backend.Access.Types.{owner_key}
use fsm_backend.Access.Rbac.{ensure_system_roles, assign_system_role_to_member, has_system_role}
use fsm_backend.Access.Assigned.{assign-has_system_role}
use fsm_backend.Organizations.Slug.{slug_base}
use fsm_backend.Organizations.Service.{
  organization_unique, member_unique, Store, Env, slug_taken, new_organization, new_member,
  create_organization_rows, attempts, create_organization,
}
use fsm_backend.Organizations.Kept.{Keeps-ensure_system_roles, Keeps-assign}

module _ (p : Database) (env : Env) (user_id name base : String) (s : Store p) where
  -- What an attempt adds: an organization with a slug that was free, the user as its member, and the
  -- role of an owner for that member.
  pub record IsFounded (attempt : ℕ) (t : Store p) : Type 0 where
    pub free :
        clashes organization_unique
          (new_organization env name base attempt)
          (p.rows s.organizations)
        ≡ false
    pub organizations :
        p.rows t.organizations
        ≡ p.rows s.organizations ++ new_organization env name base attempt ∷ []
    pub members :
        p.rows t.access.members ≡ p.rows s.access.members ++ new_member env user_id attempt ∷ []
    pub is_owner :
        has_system_role p (env.org_id attempt) (env.member_id attempt) owner_key t.access ≡ true

  rows-IsFounded :
      (attempt : ℕ)
      → ((e : Thrown) × (t : Store p) × (create_organization_rows p env user_id name base attempt s
            ≡ (err e, t)))
        ⊎ ((t : Store p) × (create_organization_rows p env user_id name base attempt s
              ≡ (ok (new_organization env name base attempt), t))
            × IsFounded attempt t)
  unfolding create_organization_rows
  rows-IsFounded attempt =
      elim (p.create_law organization_unique (new_organization env name base attempt)
        s.organizations) [
          | inr (u, e, _, _) ↦ inl (prisma (p2002 u.target), s, rw e)
          | inl (o, e, free, qo) ↦
              elim (p.create_law member_unique (new_member env user_id attempt) s.access.members) [
                | inr (u, f, _, _) ↦
                    inl (prisma (p2002 u.target), record s { organizations = o }, rw (e, f))
                | inl (m, f, _, qm) ↦
                    let a = record s.access { members = m } in
                    let roles = ensure_system_roles p (env.access attempt) (env.org_id attempt) a in
                    elim (pair_of roles) [
                      | inr (x, b, g) ↦
                          inl (x, record s { organizations = o; access = b }, rw (e, f, g))
                      | inl (_, b, g) ↦
                          let assigned =
                            assign_system_role_to_member p (env.access attempt)
                              (env.member_id attempt) (env.org_id attempt) owner_key b in
                          elim (pair_of assigned) [
                            | inr (x, c, h) ↦
                                inl (x, record s { organizations = o; access = c }, rw (e, f, g, h))
                            | inl (_, c, h) ↦
                                let kb : b.members ≡ m =
                                  (rw g at (
                                    Keeps-ensure_system_roles p (env.access attempt)
                                      (env.org_id attempt) a)) in
                                let kc : c.members ≡ b.members =
                                  (rw h at (
                                    Keeps-assign p (env.access attempt) (env.member_id attempt)
                                      (env.org_id attempt) owner_key b)) in
                                let done : assigned.0 ≡ ok tt = ap (λ r. r.0) h in
                                inr (
                                  record s { organizations = o; access = c },
                                  rw (e, f, g, h),
                                  record {
                                    free = free;
                                    organizations = qo;
                                    members = rw (kc, kb) qm;
                                    is_owner =
                                        (rw h at (
                                          assign-has_system_role p (env.access attempt)
                                            (env.member_id attempt) (env.org_id attempt) owner_key b
                                            done));
                                  },
                                )
                          ]
                    ]
              ]
        ]
    where
      pair_of :
          {A S : Type 0} (r : Result A × S)
          → ((a : A) × (t : S) × (r ≡ (ok a, t))) ⊎ ((e : Thrown) × (t : S) × (r ≡ (err e, t)))
      pair_of (ok a, t) = inl (a, t, refl)
      pair_of (err e, t) = inr (e, t, refl)

  attempts-IsFounded :
      (left attempt : ℕ)
      → ((e : Thrown) × (attempts p env user_id name base left attempt s ≡ (err e, s)))
        ⊎ ((n : ℕ) × (t : Store p) × (n < attempt + left)
            × (attempts p env user_id name base left attempt s
                ≡ (ok (new_organization env name base n), t))
            × IsFounded n t)
  unfolding attempts
  attempts-IsFounded zero attempt = inl (slug_taken, refl)
  attempts-IsFounded (suc left) attempt = elim (rows-IsFounded attempt) [
    | inr (t, e, founded) ↦ inr (attempt, t, omega arith, rw e, founded)
    | inl (x, t, e) ↦ elim (Bool-cases (is_unique_constraint_error x "slug")) [
      | inr other ↦ inl (x, rw (e, other))
      | inl taken ↦ elim (attempts-IsFounded left (suc attempt)) [
        | inl (y, k) ↦ inl (y, rw (e, taken) k)
        | inr (n, t, l, k, founded) ↦ inr (n, t, omega arith, rw (e, taken) k, founded)
      ]
    ]
  ]

-- Creating an organization throws and changes nothing, or within three attempts adds an
-- organization whose id and slug were free and one membership of the user in it, and that member
-- has the role of an owner.
pub create_organization-IsFounded :
    (p : Database) (to_lower_case : String → String) (env : Env) (user_id name : String)
    (s : Store p)
    → ((e : Thrown) × (create_organization p to_lower_case env user_id name s ≡ (err e, s)))
      ⊎ ((n : ℕ) × (t : Store p) × (n < 3)
          × (create_organization p to_lower_case env user_id name s
              ≡ (ok (new_organization env name (slug_base to_lower_case name) n), t))
          × IsFounded p env user_id name (slug_base to_lower_case name) s n t)
unfolding create_organization
create_organization-IsFounded p to_lower_case env user_id name s =
    attempts-IsFounded p env user_id name (slug_base to_lower_case name) s 3 0
