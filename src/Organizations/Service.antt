-- ===== src/Organizations/Service.antt =====
-- Organizations. modules/organizations/organizations.service.ts
use fsm_backend.Prelude.{
  ℕ, zero, suc, ◌==◌, String, ◌&&◌, Option, List, [], ◌∷◌, map, length, str_eq, before,
  if◌then◌else◌,
}
use fsm_backend.Errors.{
  Thrown, app, Result, ok, err, M, ◌>>◌, return, commit, transaction, is_unique_constraint_error,
}
use fsm_backend.Prisma.{Unique, Database, Order, unordered}
use fsm_backend.Access.Types.{OrgMember, OrgMemberRole, owner, owner_key}
use fsm_backend.Access.Rbac.{ensure_system_roles, assign_system_role_to_member}
use fsm_backend.Organizations.Slug.{slug_base}
use fsm_backend.Access.Types

pub record Organization : Type 0 where
  pub id : String
  pub name : String
  pub slug : String

-- The primary keys, `slug String @unique`, and `@@unique([orgId, userId])`
abbrev pub organization_unique : List (Unique Organization)
organization_unique =
    record { target = "id" ∷ []; clash = λ a b. str_eq a.id b.id }
    ∷ record { target = "slug" ∷ []; clash = λ a b. str_eq a.slug b.slug }
    ∷ []

abbrev pub member_unique : List (Unique OrgMember)
member_unique =
    record { target = "id" ∷ []; clash = λ a b. str_eq a.id b.id }
    ∷ record {
      target = "orgId" ∷ "userId" ∷ [];
      clash = λ a b. str_eq a.org_id b.org_id && str_eq a.user_id b.user_id;
    }
    ∷ []

-- The organizations beside the tables of members and roles.
pub record Store (p : Database) : Type 0 where
  pub organizations : p.Table Organization
  pub access : Types.Store p

-- The clock, the random suffix of a slug, and the ids that the database generates, by attempt.
pub record Env : Type 0 where
  pub now : ℕ
  pub suffix : ℕ → String
  pub org_id : ℕ → String
  pub member_id : ℕ → String
  pub access : ℕ → Types.Env

-- `OrganizationListItem`; the organization is read through the foreign key.
pub record OrganizationListItem : Type 0 where
  pub organization : Option Organization
  pub role : OrgMemberRole

abbrev pub slug_taken : Thrown
slug_taken = app (record {
  message = "Organization slug unavailable";
  status_code = 409;
  code = "ORG_SLUG_TAKEN";
})

abbrev pub slug_of : Env → String → ℕ → String
slug_of env base attempt =
    if attempt == 0 then base else before base (before "-" (env.suffix attempt))

abbrev pub new_organization : Env → String → String → ℕ → Organization
new_organization env name base attempt = record {
  id = env.org_id attempt;
  name = name;
  slug = slug_of env base attempt;
}

abbrev pub new_member : Env → String → ℕ → OrgMember
new_member env user_id attempt = record {
  id = env.member_id attempt;
  org_id = env.org_id attempt;
  user_id = user_id;
  role = owner;
  created_at = env.now;
}

module _ (p : Database) where
  -- The database's order of memberships by the names of their organizations is given.
  unfoldable pub list_organizations :
      Order OrgMember → String → Store p → List OrganizationListItem × ℕ
  list_organizations by_org_name user_id s =
      let items =
        map
          (λ (m : OrgMember). record {
            organization =
                p.find_first unordered (λ (o : Organization). str_eq o.id m.org_id) s.organizations;
            role = m.role;
          })
          (p.find_many by_org_name (λ (m : OrgMember). str_eq m.user_id user_id)
            s.access.members) in
      (items, length items)

  abbrev pub put_access : {A : Type 0} → Store p → Result A × Types.Store p → Result A × Store p
  put_access s (r, a) = (r, record s { access = a })

  -- A function of the roles' service on their tables.
  abbrev pub on_access : {A : Type 0} → M (Types.Store p) A → M (Store p) A
  on_access m s = put_access s (m s.access)

  unfoldable pub create_organization_rows :
      Env → String → String → String → ℕ → M (Store p) Organization
  create_organization_rows env user_id name base attempt = do
    λ s.
        commit s (λ t. record s { organizations = t })
          (p.create organization_unique (new_organization env name base attempt) s.organizations)
    λ s.
        commit s (λ t. record s { access = record s.access { members = t } })
          (p.create member_unique (new_member env user_id attempt) s.access.members)
    on_access (ensure_system_roles p (env.access attempt) (env.org_id attempt))
    on_access (
        assign_system_role_to_member p (env.access attempt) (env.member_id attempt)
          (env.org_id attempt) owner_key)
    return (new_organization env name base attempt)

  -- `catch (err) { if (isUniqueConstraintError(err, "slug")) continue; throw err; }`
  abbrev pub or_again :
      Result Organization × Store p → M (Store p) Organization → Result Organization × Store p
  or_again (ok o, s) again = (ok o, s)
  or_again (err e, s) again = if is_unique_constraint_error e "slug" then again s else (err e, s)

  -- The loop: how many attempts are left, and the number of the next one.
  unfoldable pub attempts : Env → String → String → String → ℕ → ℕ → M (Store p) Organization
  attempts env user_id name base zero attempt s = (err slug_taken, s)
  attempts env user_id name base (suc left) attempt s =
      or_again (transaction (create_organization_rows env user_id name base attempt) s)
        (attempts env user_id name base left (suc attempt))

  unfoldable pub create_organization :
      (String → String) → Env → String → String → M (Store p) Organization
  create_organization to_lower_case env user_id name =
      attempts env user_id name (slug_base to_lower_case name) 3 0
