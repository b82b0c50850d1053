-- ===== src/Access/Permissions.antt =====
-- What a permission of a member means. modules/rbac/rbac.service.ts
use fsm_backend.Prelude.{
  sym, eq_iff, both, ◌&&◌, str_eq, String, ◌≡◌, ◌↔◌, true, Memᴰ, is_some, Bool,
}
use fsm_backend.Prisma.{is_some-find_first, find_first-is_some, Database, unordered}
use fsm_backend.Access.Types.{Permission, OrgRole, RolePermission, MemberRole, Store}
use fsm_backend.Access.Rbac.{has_permission, permission_has_key, role_of_member}

module _ (p : Database) (s : Store p) where
  -- A role of the organization that the member has and that grants a permission with the key.
  pub record IsGranted (org_id member_id key : String) : Type 0 where
    pub permission : Permission
    pub role : OrgRole
    pub link : RolePermission
    pub member_role : MemberRole
    pub permission_in : Memᴰ permission (p.rows s.permissions)
    pub role_in : Memᴰ role (p.rows s.roles)
    pub link_in : Memᴰ link (p.rows s.role_permissions)
    pub member_role_in : Memᴰ member_role (p.rows s.member_roles)
    pub has_key : permission.key ≡ key
    pub is_of_org : role.org_id ≡ org_id
    pub links_role : link.role_id ≡ role.id
    pub links_permission : link.permission_id ≡ permission.id
    pub is_role : member_role.role_id ≡ role.id
    pub is_member : member_role.member_id ≡ member_id

  abbrev is_link : String → String → String → RolePermission → Bool
  is_link org_id member_id key g =
      permission_has_key p s key g.permission_id && role_of_member p s org_id member_id g.role_id

  abbrev is_member_role : String → String → MemberRole → Bool
  is_member_role role_id member_id m = str_eq m.role_id role_id && str_eq m.member_id member_id

  abbrev is_member_of : String → String → OrgRole → Bool
  is_member_of org_id member_id r =
      str_eq r.org_id org_id
      && is_some (p.find_first unordered (is_member_role r.id member_id) s.member_roles)

  abbrev is_key : String → String → Permission → Bool
  is_key id key q = str_eq q.id id && str_eq q.key key

  granted :
      (org_id member_id key : String)
      → has_permission p org_id member_id key s ≡ true
      → IsGranted org_id member_id key
  unfolding has_permission
  granted org_id member_id key h =
      let (link, link_in, ql) =
        find_first-is_some p unordered (is_link org_id member_id key) s.role_permissions h in
      let (qp, qr) = (both _ _).0 ql in
      let (permission, permission_in, k) =
        find_first-is_some p unordered (is_key link.permission_id key) s.permissions qp in
      let (role, role_in, r) =
        find_first-is_some p unordered
          (λ (r : OrgRole). str_eq r.id link.role_id && is_member_of org_id member_id r) s.roles
          qr in
      let (same_role, of_member) = (both _ _).0 r in
      let (same_org, has_member) = (both _ _).0 of_member in
      let (member_role, member_role_in, m) =
        find_first-is_some p unordered (is_member_role role.id member_id) s.member_roles
          has_member in
      record {
        permission = permission;
        role = role;
        link = link;
        member_role = member_role;
        permission_in = permission_in;
        role_in = role_in;
        link_in = link_in;
        member_role_in = member_role_in;
        has_key = (eq_iff permission.key key).0 ((both _ _).0 k).1;
        is_of_org = (eq_iff role.org_id org_id).0 same_org;
        links_role = sym ((eq_iff role.id link.role_id).0 same_role);
        links_permission = sym ((eq_iff permission.id link.permission_id).0 ((both _ _).0 k).0);
        is_role = (eq_iff member_role.role_id role.id).0 ((both _ _).0 m).0;
        is_member = (eq_iff member_role.member_id member_id).0 ((both _ _).0 m).1;
      }

  grants :
      (org_id member_id key : String)
      → IsGranted org_id member_id key
      → has_permission p org_id member_id key s ≡ true
  unfolding has_permission
  grants org_id member_id key g =
      is_some-find_first p unordered (is_link org_id member_id key) s.role_permissions g.link
        g.link_in
        ((both _ _).1 (
          is_some-find_first p unordered (is_key g.link.permission_id key) s.permissions
              g.permission g.permission_in
              ((both _ _).1 (
                (eq_iff g.permission.id g.link.permission_id).1 (sym g.links_permission),
                (eq_iff g.permission.key key).1 g.has_key,
              )),
          is_some-find_first p unordered
              (λ (r : OrgRole). str_eq r.id g.link.role_id && is_member_of org_id member_id r)
              s.roles g.role g.role_in
              ((both _ _).1 (
                (eq_iff g.role.id g.link.role_id).1 (sym g.links_role),
                (both _ _).1 (
                  (eq_iff g.role.org_id org_id).1 g.is_of_org,
                  is_some-find_first p unordered (is_member_role g.role.id member_id) s.member_roles
                      g.member_role g.member_role_in
                      ((both _ _).1 (
                        (eq_iff g.member_role.role_id g.role.id).1 g.is_role,
                        (eq_iff g.member_role.member_id member_id).1 g.is_member,
                      )),
                ),
              )),
        ))

  -- A member has a permission in an organization exactly if there are a role of that organization,
  -- a row that gives it to the member, a permission with the key and a row that grants it to the
  -- role.
  pub has_permission-IsGranted :
      (org_id member_id key : String)
      → (has_permission p org_id member_id key s ≡ true) ↔ IsGranted org_id member_id key
  has_permission-IsGranted org_id member_id key =
      (granted org_id member_id key, grants org_id member_id key)
