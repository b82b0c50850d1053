-- ===== src/Organizations/Kept.antt =====
-- Roles and permissions are written without a change of members. modules/rbac/rbac.service.ts
use fsm_backend.Prelude.{String, ◌≡◌, ◌∙◌, refl, List, [], ◌∷◌, Option, some, none}
use fsm_backend.Errors.{Thrown, Result, M, bind_result, require, commit, ok, err}
use fsm_backend.Prisma.{Database, unordered}
use fsm_backend.Access.Types.{SystemRoleKey, Permission, Store, Env}
use fsm_backend.Access.Rbac.{
  upsert_permissions, ensure_permission_catalog, permission_catalog, upsert_role, grant,
  ensure_system_role, ensure_each_role, ensure_system_roles, system_role_keys, is_role, role_text,
  assign_system_role_to_member,
}

module _ (p : Database) where
  -- A computation that leaves the members as they are.
  abbrev pub Keeps : {A : Type 0} → M (Store p) A → Type 0
  Keeps m = (s : Store p) → (m s).1.members ≡ s.members

  Keeps-bind_result :
      {A B : Type 0} (r : Result A × Store p) (f : A → M (Store p) B)
      → ((a : A) → Keeps (f a))
      → (bind_result r f).1.members ≡ r.1.members
  Keeps-bind_result (ok a, s) f h = h a s
  Keeps-bind_result (err e, s) f h = refl

  Keeps-require : {A : Type 0} (o : Option A) (e : Thrown) → Keeps (require o e)
  Keeps-require none e s = refl
  Keeps-require (some a) e s = refl

  Keeps-commit :
      {T : Type 0} (s : Store p) (put : T → Store p) (r : Result T)
      → ((t : T) → (put t).members ≡ s.members)
      → (commit s put r).1.members ≡ s.members
  Keeps-commit s put (ok t) h = h t
  Keeps-commit s put (err e) h = refl

  module _ (env : Env) where
    Keeps-upsert_permissions :
        (catalog : List (String × String)) → Keeps (upsert_permissions p env catalog)
    unfolding upsert_permissions
    Keeps-upsert_permissions [] s = refl
    Keeps-upsert_permissions ((key, description) ∷ catalog) s =
        Keeps-bind_result _ (λ _. upsert_permissions p env catalog)
          (λ _. Keeps-upsert_permissions catalog)
        ∙ Keeps-commit s (λ t. record s { permissions = t }) _ (λ t. refl)

    Keeps-ensure_system_role :
        (org_id : String) (ps : List Permission) (key : SystemRoleKey)
        → Keeps (ensure_system_role p env org_id ps key)
    unfolding ensure_system_role upsert_role grant
    Keeps-ensure_system_role org_id ps key s =
        Keeps-bind_result _ _ (λ _. λ t.
          Keeps-bind_result
            (require (p.find_first unordered (is_role org_id (role_text key)) t.roles) _ t) _
            (λ role. λ u. refl)
          ∙ Keeps-require _ _ t)
        ∙ Keeps-commit s (λ t. record s { roles = t }) _ (λ t. refl)

    Keeps-ensure_each_role :
        (org_id : String) (ps : List Permission) (keys : List SystemRoleKey)
        → Keeps (ensure_each_role p env org_id ps keys)
    unfolding ensure_each_role
    Keeps-ensure_each_role org_id ps [] s = refl
    Keeps-ensure_each_role org_id ps (key ∷ keys) s =
        Keeps-bind_result (ensure_system_role p env org_id ps key s)
          (λ _. ensure_each_role p env org_id ps keys) (λ _. Keeps-ensure_each_role org_id ps keys)
        ∙ Keeps-ensure_system_role org_id ps key s

    pub Keeps-ensure_system_roles : (org_id : String) → Keeps (ensure_system_roles p env org_id)
    unfolding ensure_system_roles ensure_permission_catalog
    Keeps-ensure_system_roles org_id s =
        Keeps-bind_result (ensure_permission_catalog p env s) _
          (λ ps. Keeps-ensure_each_role org_id ps system_role_keys)
        ∙ Keeps-bind_result (upsert_permissions p env permission_catalog s) _ (λ _. λ t. refl)
        ∙ Keeps-upsert_permissions permission_catalog s

    pub Keeps-assign :
        (member_id org_id : String) (key : SystemRoleKey)
        → Keeps (assign_system_role_to_member p env member_id org_id key)
    unfolding assign_system_role_to_member
    Keeps-assign member_id org_id key s =
        Keeps-bind_result
          (require (p.find_first unordered (is_role org_id (role_text key)) s.roles) _ s) _
          (λ role. λ t. Keeps-commit t (λ u. record t { member_roles = u }) _ (λ u. refl))
        ∙ Keeps-require _ _ s
