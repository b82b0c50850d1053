-- ===== src/Access/Types.antt =====
-- The tables of members, roles and permissions, and a request on its way through the middleware.
-- prisma/schema.prisma, http/middleware/, shared/types/express.d.ts
use fsm_backend.Prelude.{false, ℕ, String, Bool, Option, some, List, [], ◌∷◌, ◌&&◌, str_eq}
use fsm_backend.Prisma.{Unique, Database}

pub data Role : Type 0 where
  user admin : Role

pub data OrgMemberRole : Type 0 where
  owner member : OrgMemberRole

pub data SystemRoleKey : Type 0 where
  owner_key admin_key employee_key tech_key : SystemRoleKey

pub record User : Type 0 where
  pub id : String
  pub role : Role

pub record Session : Type 0 where
  pub id : String
  pub user_id : String
  pub valid : Bool

pub record OrgMember : Type 0 where
  pub id : String
  pub org_id : String
  pub user_id : String
  pub role : OrgMemberRole
  pub created_at : ℕ

pub record Permission : Type 0 where
  pub id : String
  pub key : String
  pub description : Option String

pub record OrgRole : Type 0 where
  pub id : String
  pub org_id : String
  pub name : String
  pub key : Option String
  pub is_system : Bool

pub record RolePermission : Type 0 where
  pub id : String
  pub role_id : String
  pub permission_id : String

pub record MemberRole : Type 0 where
  pub id : String
  pub member_id : String
  pub role_id : String

-- The primary keys, and the other unique columns.
abbrev pub permission_unique : List (Unique Permission)
permission_unique =
    record { target = "id" ∷ []; clash = λ a b. str_eq a.id b.id }
    ∷ record { target = "key" ∷ []; clash = λ a b. str_eq a.key b.key }
    ∷ []

abbrev pub same_key : Option String → Option String → Bool
same_key (some a) (some b) = str_eq a b
same_key _ _ = false

abbrev pub role_name_unique : Unique OrgRole
role_name_unique = record {
  target = "orgId" ∷ "name" ∷ [];
  clash = λ a b. str_eq a.org_id b.org_id && str_eq a.name b.name;
}

abbrev pub role_unique : List (Unique OrgRole)
role_unique =
    record { target = "id" ∷ []; clash = λ a b. str_eq a.id b.id }
    ∷ role_name_unique
    ∷ record {
      target = "orgId" ∷ "key" ∷ [];
      clash = λ a b. str_eq a.org_id b.org_id && same_key a.key b.key;
    }
    ∷ []

abbrev pub role_permission_unique : List (Unique RolePermission)
role_permission_unique =
    record { target = "id" ∷ []; clash = λ a b. str_eq a.id b.id }
    ∷ record {
      target = "roleId" ∷ "permissionId" ∷ [];
      clash = λ a b. str_eq a.role_id b.role_id && str_eq a.permission_id b.permission_id;
    }
    ∷ []

abbrev pub member_role_unique : List (Unique MemberRole)
member_role_unique =
    record { target = "id" ∷ []; clash = λ a b. str_eq a.id b.id }
    ∷ record {
      target = "memberId" ∷ "roleId" ∷ [];
      clash = λ a b. str_eq a.member_id b.member_id && str_eq a.role_id b.role_id;
    }
    ∷ []

pub record Store (p : Database) : Type 0 where
  pub users : p.Table User
  pub sessions : p.Table Session
  pub members : p.Table OrgMember
  pub permissions : p.Table Permission
  pub roles : p.Table OrgRole
  pub role_permissions : p.Table RolePermission
  pub member_roles : p.Table MemberRole

-- The ids that the database generates: of permissions and of roles by their keys, of a role's
-- permissions by the role's and the permission's ids, of a member's role.
pub record Env : Type 0 where
  pub permission_id : String → String
  pub role_id : String → String
  pub role_permission_id : String → String → String
  pub member_role_id : String

-- `req.user`, `req.org` and `res.locals`
pub record AuthUser : Type 0 where
  pub id : String
  pub role : Role
  pub session_id : Option String

pub record OrgContext : Type 0 where
  pub id : String
  pub membership_id : String
  pub role : OrgMemberRole

pub record Locals : Type 0 where
  pub user_id : Option String
  pub session_id : Option String
  pub org_id : Option String

pub record Request : Type 0 where
  pub authorization : Option String
  pub org_header : Option String
  pub user : Option AuthUser
  pub org : Option OrgContext
  pub locals : Locals
