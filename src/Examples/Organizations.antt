-- ===== src/Examples/Organizations.antt =====
-- The first organization, and the slugs of names.
use fsm_backend.Organizations.SlugForm.{
  slug_base-is_plain, ends_with_dash, starts_with_dash, is_plain,
}
use fsm_backend.Prelude.{false, is_empty, true, trim, before, ◌≡◌, ◌⊎◌, ◌<◌, refl, [], ℕ, String}
use fsm_backend.Memory.{memory}
use fsm_backend.Prisma.{upsert}
use fsm_backend.Access.Rbac.{
  ensure_system_roles, ensure_permission_catalog, upsert_permissions, ensure_each_role,
  ensure_system_role, upsert_role, grant, assign_system_role_to_member,
}
use fsm_backend.Errors.{Thrown, ok, err}
use fsm_backend.Organizations.Slug.{slug_base, strip_last_dashes, strip_first_dashes, replace_runs}
use fsm_backend.Organizations.Service.{
  Store, Env, attempts, create_organization_rows, create_organization, new_organization,
}
use fsm_backend.Organizations.Owned.{IsFounded, create_organization-IsFounded}

abbrev env : Env
env = record {
  now = 1;
  suffix = λ n. "0a1b2c3d";
  org_id = λ n. "org-1";
  member_id = λ n. "member-1";
  access = λ n. record {
    permission_id = λ key. key;
    role_id = λ key. key;
    role_permission_id = λ role id. before role id;
    member_role_id = "member-role-1";
  };
}

abbrev lower : String → String
lower s = s

abbrev store : Store memory
unfolding memory
store = record {
  organizations = [];
  access = record {
    users = [];
    sessions = [];
    members = [];
    permissions = [];
    roles = [];
    role_permissions = [];
    member_roles = [];
  };
}

slug_works : slug_base lower " --dry &  heat! " ≡ "dry-heat"
unfolding slug_base strip_last_dashes strip_first_dashes replace_runs trim
slug_works = refl

slug_of_nothing : slug_base lower "!?" ≡ "org"
unfolding slug_base strip_last_dashes strip_first_dashes replace_runs trim
slug_of_nothing = refl

create_works :
    (create_organization memory lower env "user-1" "dry heat" store).0
    ≡ ok (record { id = "org-1"; name = "dry heat"; slug = "dry-heat" })
unfolding memory create_organization attempts create_organization_rows ensure_system_roles
    ensure_permission_catalog upsert_permissions upsert ensure_each_role ensure_system_role
    upsert_role grant assign_system_role_to_member slug_base strip_last_dashes strip_first_dashes
    replace_runs trim
create_works = refl

create_organization-IsFounded_example :
    ((e : Thrown) × (create_organization memory lower env "user-1" "dry heat" store
        ≡ (err e, store)))
    ⊎ ((n : ℕ) × (t : Store memory) × (n < 3)
        × (create_organization memory lower env "user-1" "dry heat" store
            ≡ (ok (new_organization env "dry heat" (slug_base lower "dry heat") n), t))
        × IsFounded memory env "user-1" "dry heat" (slug_base lower "dry heat") store n t)
create_organization-IsFounded_example =
    create_organization-IsFounded memory lower env "user-1" "dry heat" store

slug_base-is_plain_example :
    (is_plain (slug_base lower "-dry heat-") ≡ true)
    × (is_empty (slug_base lower "-dry heat-") ≡ false)
    × (starts_with_dash (slug_base lower "-dry heat-") ≡ false)
    × (ends_with_dash (slug_base lower "-dry heat-") ≡ false)
slug_base-is_plain_example = slug_base-is_plain lower "-dry heat-"
