-- ===== src/Access/Assigned.antt =====
-- A role that was assigned is found. modules/rbac/rbac.service.ts
use fsm_backend.Prelude.{
  is_some, eq_iff, Bool, String, ◌≡◌, inl, inr, true, Memᴰ, eq_refl, both, str_eq, ◌&&◌,
}
use fsm_backend.Errors.{ok}
use fsm_backend.Prisma.{Database, unordered, find_first-cases, is_some-find_first, upsert-cases}
use fsm_backend.Access.Types.{SystemRoleKey, OrgRole, MemberRole, member_role_unique, Store, Env}
use fsm_backend.Access.Rbac.{is_role, role_text, assign_system_role_to_member, has_system_role}

module _ (p : Database) (env : Env) (member_id org_id : String) (key : SystemRoleKey)
    (s : Store p) where
  abbrev has_role : String → MemberRole → Bool
  has_role role_id m = str_eq m.member_id member_id && str_eq m.role_id role_id

  found-has_system_role :
      (t : p.Table MemberRole) (role : OrgRole) (m : MemberRole)
      → Memᴰ role (p.rows s.roles)
      → is_role org_id (role_text key) role ≡ true
      → Memᴰ m (p.rows t)
      → has_role role.id m ≡ true
      → has_system_role p org_id member_id key (record s { member_roles = t }) ≡ true
  unfolding has_system_role
  found-has_system_role t role m i w j h =
      let (member, linked) = (both _ _).0 h in
      let same : str_eq role.id m.role_id ≡ true =
        rw ((eq_iff m.role_id role.id).0 linked) (eq_refl role.id) in
      is_some-find_first p unordered
        (λ (n : MemberRole).
          str_eq n.member_id member_id
          && is_some (
              p.find_first unordered
                (λ (r : OrgRole). str_eq r.id n.role_id && is_role org_id (role_text key) r)
                s.roles))
        t m j
        ((both _ _).1 (
          member,
          is_some-find_first p unordered
              (λ (r : OrgRole). str_eq r.id m.role_id && is_role org_id (role_text key) r) s.roles
              role i ((both _ _).1 (same, w)),
        ))

  -- After an assignment of a system role to a member that returned, the member has that role in
  -- the organization.
  pub assign-has_system_role :
      (assign_system_role_to_member p env member_id org_id key s).0 ≡ ok tt
      → has_system_role p org_id member_id key
          (assign_system_role_to_member p env member_id org_id key s).1
        ≡ true
  unfolding assign_system_role_to_member
  assign-has_system_role h =
      elim (find_first-cases p unordered (is_role org_id (role_text key)) s.roles) [
        | inl (e, _) ↦ absurd (let bad = (rw e at h) in cc)
        | inr (role, e, w, i) ↦
            elim (upsert-cases p member_role_unique (has_role role.id) (λ m. m) (new_row role)
              s.member_roles) [
                | inl (x, g) ↦ absurd (let bad = (rw (e, g) at h) in cc)
                | inr (t, m, g, j, inl new) ↦
                    rw (e, g)
                      (found-has_system_role t role m i w j
                        (rw new ((both _ _).1 (eq_refl member_id, eq_refl role.id))))
                | inr (t, m, g, j, inr (b, k, old)) ↦
                    rw (e, g) (found-has_system_role t role m i w j (rw old k))
              ]
      ]
    where
      new_row : OrgRole → MemberRole
      new_row role = record { id = env.member_role_id; member_id = member_id; role_id = role.id }
