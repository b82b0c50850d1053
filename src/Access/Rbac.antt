-- ===== src/Access/Rbac.antt =====
-- Roles and permissions. modules/rbac/rbac.service.ts, modules/rbac/rbac.constants.ts
use fsm_backend.Prelude.{
  before, true, if◌then◌else◌, String, Bool, Option, some, none, is_some, List, [], ◌∷◌, map, ◌&&◌,
  str_eq, opt_eq, elem,
}
use fsm_backend.Errors.{Thrown, plain, M, ◌>>=◌, ◌>>◌, return, require, gets, commit, ok}
use fsm_backend.Prisma.{Database, unordered, upsert}
use fsm_backend.Access.Types.{
  SystemRoleKey, owner_key, admin_key, employee_key, tech_key, Permission, OrgRole, RolePermission,
  MemberRole, permission_unique, role_unique, role_name_unique, role_permission_unique,
  member_role_unique, Store, Env,
}

abbrev pub system_role_keys : List SystemRoleKey
system_role_keys = owner_key ∷ admin_key ∷ employee_key ∷ tech_key ∷ []

abbrev pub role_text : SystemRoleKey → String
role_text owner_key = "OWNER"
role_text admin_key = "ADMIN"
role_text employee_key = "EMPLOYEE"
role_text tech_key = "TECH"

abbrev pub customers_read : String
customers_read = "customers:read"

abbrev pub technicians_read : String
technicians_read = "technicians:read"

abbrev pub work_orders_read : String
work_orders_read = "work-orders:read"

abbrev pub organizations_manage : String
organizations_manage = "organizations:manage"

-- The keys of the catalog with their descriptions.
abbrev pub permission_catalog : List (String × String)
permission_catalog =
    (customers_read, "View customer records.")
    ∷ (technicians_read, "View technician records.")
    ∷ (work_orders_read, "View work orders.")
    ∷ (organizations_manage, "Manage organization settings.")
    ∷ []

abbrev pub catalog_keys : List String
catalog_keys = map (λ (c : String × String). c.0) permission_catalog

abbrev pub system_role_permissions : SystemRoleKey → List String
system_role_permissions owner_key = catalog_keys
system_role_permissions admin_key = customers_read ∷ technicians_read ∷ work_orders_read ∷ []
system_role_permissions employee_key = customers_read ∷ work_orders_read ∷ []
system_role_permissions tech_key = work_orders_read ∷ []

-- `where: { orgId_key: { orgId, key } }`
abbrev pub is_role : String → String → OrgRole → Bool
is_role org_id key r = str_eq r.org_id org_id && opt_eq r.key (some key)

-- The map from keys to ids, and the ids of keys that it has.
abbrev pub id_of_key : String → List Permission → Option String
id_of_key key [] = none
id_of_key key (q ∷ qs) = if str_eq q.key key then some q.id else id_of_key key qs

abbrev pub with_id : Option String → List String → List String
with_id none ids = ids
with_id (some id) ids = id ∷ ids

unfoldable pub ids_of_keys : List Permission → List String → List String
ids_of_keys qs [] = []
ids_of_keys qs (key ∷ keys) = with_id (id_of_key key qs) (ids_of_keys qs keys)

abbrev pub role_permission : Env → String → String → RolePermission
role_permission env role_id id = record {
  id = env.role_permission_id role_id id;
  role_id = role_id;
  permission_id = id;
}

module _ (p : Database) where
  -- The upserts of the catalog, in one of the orders in which they may run: their keys differ.
  unfoldable pub upsert_permissions : Env → List (String × String) → M (Store p) (Unit {0})
  upsert_permissions env [] = return tt
  upsert_permissions env ((key, description) ∷ catalog) = do
    λ s.
        commit s (λ t. record s { permissions = t })
          (upsert p permission_unique [] (λ (q : Permission). str_eq q.key key)
            (λ q. record q { description = some description })
            (record { id = env.permission_id key; key = key; description = some description })
            s.permissions)
    upsert_permissions env catalog

  unfoldable pub ensure_permission_catalog : Env → M (Store p) (List Permission)
  ensure_permission_catalog env = do
    upsert_permissions env permission_catalog
    gets λ s. p.find_many unordered (λ (q : Permission). elem q.key catalog_keys) s.permissions

  unfoldable pub upsert_role : Env → String → String → M (Store p) (Unit {0})
  upsert_role env org_id key s =
      commit s (λ t. record s { roles = t })
        (upsert p role_unique (role_name_unique ∷ []) (is_role org_id key)
          (λ r. record r { name = key; is_system = true })
          (record {
            id = env.role_id key;
            org_id = org_id;
            name = key;
            key = some key;
            is_system = true;
          })
          s.roles)

  -- `createMany` with `skipDuplicates`; without ids it is skipped, which is the same.
  unfoldable pub grant : Env → String → List String → M (Store p) (Unit {0})
  grant env role_id ids s = (
    ok tt,
    record s {
      role_permissions =
          p.create_many role_permission_unique (map (role_permission env role_id) ids)
            s.role_permissions;
    },
  )

  -- One round of the loop over the keys: the row that the upsert returns is read back by its key.
  unfoldable pub ensure_system_role :
      Env → String → List Permission → SystemRoleKey → M (Store p) (Unit {0})
  ensure_system_role env org_id permissions key = do
    upsert_role env org_id (role_text key)
    found ← gets λ s. p.find_first unordered (is_role org_id (role_text key)) s.roles
    role ← require found (plain "upsert returns its row")
    grant env role.id (ids_of_keys permissions (system_role_permissions key))

  unfoldable pub ensure_each_role :
      Env → String → List Permission → List SystemRoleKey → M (Store p) (Unit {0})
  ensure_each_role env org_id permissions [] = return tt
  ensure_each_role env org_id permissions (key ∷ keys) = do
    ensure_system_role env org_id permissions key
    ensure_each_role env org_id permissions keys

  unfoldable pub ensure_system_roles : Env → String → M (Store p) (Unit {0})
  ensure_system_roles env org_id = do
    permissions ← ensure_permission_catalog env
    ensure_each_role env org_id permissions system_role_keys

  abbrev pub system_role_missing : String → String → Thrown
  system_role_missing key org_id =
      plain (before "System role " (before key (before " missing for org " org_id)))

  unfoldable pub assign_system_role_to_member :
      Env → String → String → SystemRoleKey → M (Store p) (Unit {0})
  assign_system_role_to_member env member_id org_id role_key = do
    found ← gets λ s. p.find_first unordered (is_role org_id (role_text role_key)) s.roles
    role ← require found (system_role_missing (role_text role_key) org_id)
    λ s.
        commit s (λ t. record s { member_roles = t })
          (upsert p member_role_unique []
            (λ (m : MemberRole). str_eq m.member_id member_id && str_eq m.role_id role.id) (λ m. m)
            (record { id = env.member_role_id; member_id = member_id; role_id = role.id })
            s.member_roles)

  -- `role: { orgId, memberRoles: { some: { memberId } } }`
  abbrev pub role_of_member : Store p → String → String → String → Bool
  role_of_member s org_id member_id role_id = is_some (
      p.find_first unordered
        (λ (r : OrgRole).
          str_eq r.id role_id
          && (str_eq r.org_id org_id
              && is_some (
                  p.find_first unordered
                    (λ (m : MemberRole). str_eq m.role_id r.id && str_eq m.member_id member_id)
                    s.member_roles)))
        s.roles)

  -- `permission: { key }`
  abbrev pub permission_has_key : Store p → String → String → Bool
  permission_has_key s key permission_id = is_some (
      p.find_first unordered (λ (q : Permission). str_eq q.id permission_id && str_eq q.key key)
        s.permissions)

  unfoldable pub has_permission : String → String → String → Store p → Bool
  has_permission org_id member_id key s = is_some (
      p.find_first unordered
        (λ (g : RolePermission).
          permission_has_key s key g.permission_id && role_of_member s org_id member_id g.role_id)
        s.role_permissions)

  unfoldable pub has_system_role : String → String → SystemRoleKey → Store p → Bool
  has_system_role org_id member_id role_key s = is_some (
      p.find_first unordered
        (λ (m : MemberRole).
          str_eq m.member_id member_id
          && is_some (
              p.find_first unordered
                (λ (r : OrgRole). str_eq r.id m.role_id && is_role org_id (role_text role_key) r)
                s.roles))
        s.member_roles)
