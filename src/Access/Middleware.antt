-- ===== src/Access/Middleware.antt =====
-- The middleware before a route: authentication, the organization of a request, and its permission.
-- http/middleware/requireAuth.ts, orgContext.ts, requirePermission.ts, requireOrgRole.ts,
-- requireRole.ts; modules/auth/auth.service.ts, shared/jwt.ts
use fsm_backend.Prelude.{
  String, Bool, true, false, ◌&&◌, ◌||◌, Option, none, some, List, [], ◌∷◌, or_else, or_try, truthy,
  str_eq, trim, strip_prefix, take, if◌then◌else◌,
}
use fsm_backend.Errors.{Thrown, app, Result, ok, err}
use fsm_backend.Prisma.{Database, unordered, ascending}
use fsm_backend.Access.Types.{
  Role, user, admin, SystemRoleKey, User, Session, OrgMember, Store, AuthUser, Request,
}
use fsm_backend.Access.Rbac.{has_permission, has_system_role}

abbrev pub unauthorized : Thrown
unauthorized = app (record { message = "Unauthorized"; status_code = 401; code = "UNAUTHORIZED" })

abbrev pub forbidden : Thrown
forbidden = app (record { message = "Forbidden"; status_code = 403; code = "FORBIDDEN" })

abbrev pub org_forbidden : Thrown
org_forbidden = app (record { message = "Forbidden"; status_code = 403; code = "ORG_FORBIDDEN" })

abbrev pub org_required : Thrown
org_required =
    app (record { message = "Organization required"; status_code = 400; code = "ORG_REQUIRED" })

abbrev pub jwt_access_invalid : Thrown
jwt_access_invalid =
    app
      (record { message = "Invalid access token"; status_code = 401; code = "JWT_ACCESS_INVALID" })

abbrev pub session_invalid : Thrown
session_invalid =
    app (record { message = "Invalid session"; status_code = 401; code = "SESSION_INVALID" })

-- The claims of an access token as `authenticateAccessToken` reads them.
pub record AccessClaims : Type 0 where
  pub sub : Option String
  pub user_id : Option String
  pub session_id : Option String

pub record AccessToken : Type 0 where
  pub user_id : String
  pub session_id : Option String

-- A computation that may throw, and what follows it.
abbrev pub next : {A B : Type 0} → Result A → (A → Result B) → Result B
next (ok a) f = f a
next (err e) f = err e

abbrev pub found_or : {A : Type 0} → Option A → Thrown → Result A
found_or none e = err e
found_or (some a) e = ok a

-- `verifyAccess`: whatever `jwt.verify` throws becomes one error. The library's answer for the secret
-- and the clock of the server is `verify`, none where it throws.
unfoldable pub verify_access : (String → Option AccessClaims) → String → Result AccessClaims
verify_access verify token = found_or (verify token) jwt_access_invalid

unfoldable pub authenticate_access_token :
    (String → Option AccessClaims) → String → Result AccessToken
authenticate_access_token verify token = next (found_or (truthy (some token)) unauthorized) λ given.
    next (verify_access verify given) λ payload.
      next (found_or (truthy (or_try payload.sub payload.user_id)) jwt_access_invalid)
        λ user_id. ok (record { user_id = user_id; session_id = payload.session_id })

-- The token of an `Authorization` header.
abbrev pub bearer : Option String → Result String
bearer header = found_or (strip_prefix "Bearer " (or_else header "")) unauthorized

abbrev pub is_same_role : Role → Role → Bool
is_same_role user user = true
is_same_role admin admin = true
is_same_role _ _ = false

-- `roles.includes(role)`
abbrev pub includes : List Role → Role → Bool
includes [] r = false
includes (q ∷ qs) r = is_same_role q r || includes qs r

abbrev pub when : {A : Type 0} → Bool → Thrown → A → Result A
when true e a = ok a
when false e a = err e

module _ (p : Database) where
  -- The session that a token names: it is there, of the user, and valid.
  unfoldable pub check_session : Store p → String → Option String → Result (Unit {0})
  check_session s user_id none = ok tt
  check_session s user_id (some id) =
      next
        (found_or (p.find_first unordered (λ (q : Session). str_eq q.id id) s.sessions)
          unauthorized)
        λ session.
          next (when (str_eq session.user_id user_id) unauthorized tt)
            λ _. when session.valid session_invalid tt

  -- `requireAuth`; a token with an empty session id counts as one without.
  unfoldable pub require_auth : (String → Option AccessClaims) → Store p → Request → Result Request
  require_auth verify s req = next (bearer req.authorization) λ rest.
      next (found_or (truthy (some (trim rest))) unauthorized) λ token.
        next (authenticate_access_token verify token) λ claims.
          next
            (found_or (p.find_first unordered (λ (u : User). str_eq u.id claims.user_id) s.users)
              unauthorized)
            λ u. next (check_session s u.id (truthy claims.session_id)) λ _. ok (record req {
              user = some (record { id = u.id; role = u.role; session_id = claims.session_id });
              locals = record req.locals { user_id = some u.id; session_id = claims.session_id };
            })

  abbrev pub with_org : OrgMember → Request → Request
  with_org m req = record req {
    org = some (record { id = m.org_id; membership_id = m.id; role = m.role });
    locals = record req.locals { org_id = some m.org_id };
  }

  -- The one membership of a user who has no other.
  abbrev pub only_membership : List OrgMember → Request → Result Request
  only_membership [] req = err org_required
  only_membership (m ∷ []) req = ok (with_org m req)
  only_membership (m ∷ n ∷ ms) req = err org_required

  abbrev pub named_membership : Option OrgMember → Request → Result Request
  named_membership none req = err org_forbidden
  named_membership (some m) req = ok (with_org m req)

  -- Without an organization in the header.
  unfoldable pub unnamed_org : Bool → Store p → AuthUser → Request → Result Request
  unnamed_org false s u req = ok req
  unnamed_org true s u req =
      only_membership
        (take 2 (
          p.find_many (ascending (λ (m : OrgMember). m.created_at)) (λ m. str_eq m.user_id u.id)
            s.members))
        req

  unfoldable pub org_of : Bool → Store p → AuthUser → Option String → Request → Result Request
  org_of required s u none req = unnamed_org required s u req
  org_of required s u (some org_id) req =
      named_membership
        (p.find_first unordered (λ (m : OrgMember). str_eq m.org_id org_id && str_eq m.user_id u.id)
          s.members)
        req

  -- `resolveOrgContext`
  unfoldable pub resolve_org_context : Bool → Store p → Request → Result Request
  resolve_org_context required s req = elim req.user [
    | none ↦ ok req
    | some u ↦ org_of required s u (truthy (some (trim (or_else req.org_header "")))) req
  ]

  -- `requirePermission`
  unfoldable pub require_permission : String → Store p → Request → Result Request
  require_permission key s req = next (found_or req.user unauthorized) λ u.
      next (found_or req.org org_required)
        λ org. when (has_permission p org.id org.membership_id key s) forbidden req

  -- `requireRole` of requireOrgRole.ts: one of the roles is enough.
  unfoldable pub has_some_role : String → String → List SystemRoleKey → Store p → Bool
  has_some_role org_id member_id [] s = false
  has_some_role org_id member_id (key ∷ keys) s =
      let rest = has_some_role org_id member_id keys s in
      if has_system_role p org_id member_id key s then true else rest

  unfoldable pub require_org_role : List SystemRoleKey → Store p → Request → Result Request
  require_org_role keys s req = next (found_or req.user unauthorized) λ u.
      next (found_or req.org org_required)
        λ org. when (has_some_role org.id org.membership_id keys s) forbidden req

  -- `requireRole` of requireRole.ts
  unfoldable pub require_role : List Role → Request → Result Request
  require_role roles req =
      next (found_or req.user unauthorized) λ u. when (includes roles u.role) forbidden req

  -- The middleware of a route of the API that asks for a permission.
  unfoldable pub api_route :
      (String → Option AccessClaims) → String → Store p → Request → Result Request
  api_route verify key s req =
      next (require_auth verify s req)
        λ r. next (resolve_org_context false s r) λ q. require_permission key s q
