-- ===== src/Examples/Access.antt =====
-- A member of an organization with a role, and errors to answer.
use fsm_backend.Access.Assigned.{assign-has_system_role}
use fsm_backend.Prisma.{upsert}
use fsm_backend.Prelude.{
  if◌then◌else◌, strip_prefix, trim, ◌≡◌, ◌↔◌, refl, none, some, [], ◌∷◌, Option, String, true,
  str_eq,
}
use fsm_backend.Memory.{memory}
use fsm_backend.Errors.{ok}
use fsm_backend.Access.Types.{admin_key, Env, user, member, Store, Request}
use fsm_backend.Access.Rbac.{
  assign_system_role_to_member, has_system_role, has_permission, customers_read,
}
use fsm_backend.Access.Middleware.{
  AccessClaims, api_route, require_auth, verify_access, authenticate_access_token, check_session,
  resolve_org_context, org_of, require_permission,
}
use fsm_backend.Access.Permissions.{IsGranted, has_permission-IsGranted}
use fsm_backend.Access.Guarded.{IsAuthorized, api_route-IsAuthorized}
use fsm_backend.Access.Handler.{Issue, zod, handle_error}
use fsm_backend.Access.Hidden.{same_issues, handle_error-IsSameOutside}

abbrev store : Store memory
unfolding memory
store = record {
  users = record { id = "user-1"; role = user } ∷ [];
  sessions = record { id = "session-1"; user_id = "user-1"; valid = true } ∷ [];
  members =
      record {
        id = "member-1";
        org_id = "org-1";
        user_id = "user-1";
        role = member;
        created_at = 1;
      }
      ∷ [];
  permissions = record { id = "p-1"; key = "customers:read"; description = none } ∷ [];
  roles =
      record { id = "r-1"; org_id = "org-1"; name = "ADMIN"; key = some "ADMIN"; is_system = true }
      ∷ [];
  role_permissions = record { id = "g-1"; role_id = "r-1"; permission_id = "p-1" } ∷ [];
  member_roles = record { id = "m-1"; member_id = "member-1"; role_id = "r-1" } ∷ [];
}

-- A server that knows one token.
abbrev verify : String → Option AccessClaims
verify token =
    if str_eq token "token"
    then some (record { sub = some "user-1"; user_id = none; session_id = some "session-1" })
    else none

abbrev request : Request
request = record {
  authorization = some "Bearer token ";
  org_header = some " org-1";
  user = none;
  org = none;
  locals = record { user_id = none; session_id = none; org_id = none };
}

abbrev admitted : Request
admitted = record request {
  user = some (record { id = "user-1"; role = user; session_id = some "session-1" });
  org = some (record { id = "org-1"; membership_id = "member-1"; role = member });
  locals = record { user_id = some "user-1"; session_id = some "session-1"; org_id = some "org-1" };
}

has_permission-IsGranted_example :
    (has_permission memory "org-1" "member-1" customers_read store ≡ true)
    ↔ IsGranted memory store "org-1" "member-1" customers_read
has_permission-IsGranted_example =
    has_permission-IsGranted memory store "org-1" "member-1" customers_read

route_works : api_route memory verify customers_read store request ≡ ok admitted
unfolding memory api_route require_auth strip_prefix trim authenticate_access_token verify_access
    check_session resolve_org_context org_of require_permission has_permission
route_works = refl

api_route-IsAuthorized_example : IsAuthorized memory verify store customers_read request admitted
api_route-IsAuthorized_example =
    api_route-IsAuthorized memory verify store customers_read request admitted refl route_works

abbrev issue : String → Issue
issue secret = record { path = "email" ∷ []; code = "invalid_string"; rest = some secret }

handle_error-IsSameOutside_example :
    handle_error true (zod (issue "regex" ∷ [])) ≡ handle_error true (zod (issue "other" ∷ []))
handle_error-IsSameOutside_example =
    handle_error-IsSameOutside (zod (issue "regex" ∷ [])) (zod (issue "other" ∷ []))
      (same_issues (issue "regex" ∷ []) (issue "other" ∷ []) refl)

abbrev grants : Env
grants = record {
  permission_id = λ key. key;
  role_id = λ key. key;
  role_permission_id = λ role id. id;
  member_role_id = "m-2";
}

assign_works :
    (assign_system_role_to_member memory grants "member-2" "org-1" admin_key store).0 ≡ ok tt
unfolding memory assign_system_role_to_member upsert
assign_works = refl

assign-has_system_role_example :
    has_system_role memory "org-1" "member-2" admin_key
      (assign_system_role_to_member memory grants "member-2" "org-1" admin_key store).1
    ≡ true
assign-has_system_role_example =
    assign-has_system_role memory grants "member-2" "org-1" admin_key store assign_works
