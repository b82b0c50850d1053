-- ===== src/Access/Guarded.antt =====
-- What has been checked of a request that gets to its route. http/middleware/
use fsm_backend.Prelude.{
  Option-cases, ◌⊎◌, or_else, ◌∙◌, String, ◌≡◌, true, false, Memᴰ, some, none, inl, inr, Option,
  refl, Bool-cases, truthy, or_try, trim, both, eq_iff, str_eq, ◌&&◌,
}
use fsm_backend.Errors.{Result-cases, Thrown, ok, err}
use fsm_backend.Prisma.{Database, unordered, find_first-cases}
use fsm_backend.Access.Types.{Locals, User, Session, OrgMember, Store, AuthUser, Request}
use fsm_backend.Access.Rbac.{has_permission}
use fsm_backend.Access.Middleware.{
  unauthorized, session_invalid, jwt_access_invalid, org_forbidden, bearer, AccessClaims,
  verify_access, authenticate_access_token, check_session, require_auth, resolve_org_context,
  org_of, unnamed_org, with_org, require_permission, api_route,
}
use fsm_backend.Access.Permissions.{IsGranted, has_permission-IsGranted}

truthy-some : (o : Option String) (t : String) → truthy o ≡ some t → o ≡ some t
truthy-some none t h = absurd (cc)
truthy-some (some s) t h = elim (Bool-cases (str_eq s "")) [
  | inl e ↦ absurd (let bad = (rw e at h) in cc)
  | inr e ↦ (rw e at h)
]

module _ (p : Database) (verify : String → Option AccessClaims) (s : Store p) where
  -- The token of a request names a user and, if any, a valid session of the user.
  pub record IsAuthenticated (req : Request) (u : User) : Type 0 where
    pub rest : String
    pub claims : AccessClaims
    pub is_bearer : bearer req.authorization ≡ ok rest
    pub is_verified : verify (trim rest) ≡ some claims
    pub names_user : or_try claims.sub claims.user_id ≡ some u.id
    pub user_in : Memᴰ u (p.rows s.users)
    pub has_session :
        (id : String)
        → truthy claims.session_id ≡ some id
        → (q : Session) × Memᴰ q (p.rows s.sessions)
          × (q.id ≡ id)
          × (q.user_id ≡ u.id)
          × (q.valid ≡ true)

  check_session-cases :
      (user_id : String) (o : Option String)
      → ((e : Thrown) × (check_session p s user_id o ≡ err e))
        ⊎ ((check_session p s user_id o ≡ ok tt)
            × ((id : String)
                → o ≡ some id
                → (q : Session) × Memᴰ q (p.rows s.sessions)
                  × (q.id ≡ id)
                  × (q.user_id ≡ user_id)
                  × (q.valid ≡ true)))
  unfolding check_session
  check_session-cases user_id none = inr (refl, λ id e. absurd (cc))
  check_session-cases user_id (some i) =
      elim (find_first-cases p unordered (λ (q : Session). str_eq q.id i) s.sessions) [
        | inl (e, _) ↦ inl (unauthorized, rw e)
        | inr (q, e, w, m) ↦ elim (Bool-cases (str_eq q.user_id user_id)) [
          | inr other ↦ inl (unauthorized, rw (e, other))
          | inl own ↦ elim (Bool-cases q.valid) [
            | inr invalid ↦ inl (session_invalid, rw (e, own, invalid))
            | inl valid ↦ inr (
              rw (e, own, valid) refl,
              λ id same. (
                q,
                m,
                (let k = (eq_iff q.id i).0 w in cc),
                (eq_iff q.user_id user_id).0 own,
                valid,
              ),
            )
          ]
        ]
      ]

  authenticate-cases :
      (token : String)
      → ((e : Thrown) × (authenticate_access_token verify token ≡ err e))
        ⊎ ((c : AccessClaims) × (user_id : String) × (verify token ≡ some c)
            × (or_try c.sub c.user_id ≡ some user_id)
            × (authenticate_access_token verify token
                ≡ ok (record { user_id = user_id; session_id = c.session_id })))
  unfolding authenticate_access_token verify_access
  authenticate-cases token = elim (Bool-cases (str_eq token "")) [
    | inl e ↦ inl (unauthorized, rw e)
    | inr e ↦ elim (Option-cases (verify token)) [
      | inl v ↦ inl (jwt_access_invalid, rw (e, v))
      | inr (c, v) ↦ elim (Option-cases (truthy (or_try c.sub c.user_id))) [
        | inl t ↦ inl (jwt_access_invalid, rw (e, v, t))
        | inr (id, t) ↦ inr (c, id, v, truthy-some (or_try c.sub c.user_id) id t, rw (e, v, t))
      ]
    ]
  ]

  require_auth-cases :
      (req : Request)
      → ((e : Thrown) × (require_auth p verify s req ≡ err e))
        ⊎ ((u : User) × (a : AuthUser) × (l : Locals) × IsAuthenticated req u
            × (a.id ≡ u.id)
            × (require_auth p verify s req ≡ ok (record req { user = some a; locals = l })))
  unfolding require_auth
  require_auth-cases req = elim (Result-cases (bearer req.authorization)) [
    | inr (e, b) ↦ inl (e, rw b)
    | inl (rest, b) ↦ elim (Bool-cases (str_eq (trim rest) "")) [
      | inl blank ↦ inl (unauthorized, rw (b, blank))
      | inr blank ↦ elim (authenticate-cases (trim rest)) [
        | inl (e, a) ↦ inl (e, rw (b, blank, a))
        | inr (c, user_id, v, names, a) ↦
            elim (find_first-cases p unordered (λ (u : User). str_eq u.id user_id) s.users) [
              | inl (f, _) ↦ inl (unauthorized, rw (b, blank, a, f))
              | inr (u, f, w, m) ↦ elim (check_session-cases u.id (truthy c.session_id)) [
                | inl (e, k) ↦ inl (e, rw (b, blank, a, f, k))
                | inr (k, has) ↦ inr (
                  u,
                  record { id = u.id; role = u.role; session_id = c.session_id },
                  record req.locals { user_id = some u.id; session_id = c.session_id },
                  record {
                    rest = rest;
                    claims = c;
                    is_bearer = b;
                    is_verified = v;
                    names_user = rw ((eq_iff u.id user_id).0 w) names;
                    user_in = m;
                    has_session = has;
                  },
                  refl,
                  rw (b, blank, a, f, k),
                )
              ]
            ]
      ]
    ]
  ]

  -- Without an organization in the header a request keeps the one it has.
  resolve-cases :
      (req : Request) (u : AuthUser)
      → req.user ≡ some u
      → ((e : Thrown) × (resolve_org_context p false s req ≡ err e))
        ⊎ (resolve_org_context p false s req ≡ ok req)
        ⊎ ((m : OrgMember) × Memᴰ m (p.rows s.members)
            × (m.user_id ≡ u.id)
            × (str_eq m.org_id (trim (or_else req.org_header "")) ≡ true)
            × (resolve_org_context p false s req ≡ ok (with_org p m req)))
  unfolding resolve_org_context org_of unnamed_org
  resolve-cases req u h = elim (Bool-cases (str_eq (trim (or_else req.org_header "")) "")) [
    | inl blank ↦ inr (inl (rw (h, blank)))
    | inr blank ↦
        elim (find_first-cases p unordered
          (λ (m : OrgMember).
            str_eq m.org_id (trim (or_else req.org_header "")) && str_eq m.user_id u.id)
          s.members) [
            | inl (f, _) ↦ inl (org_forbidden, rw (h, blank, f))
            | inr (m, f, w, i) ↦
                let (same_org, same_user) = (both _ _).0 w in
                inr (inr (m, i, (eq_iff m.user_id u.id).0 same_user, same_org, rw (h, blank, f)))
          ]
  ]

  -- What has been checked of a request at its route.
  pub record IsAuthorized (key : String) (req q : Request) : Type 0 where
    pub user : User
    pub member : OrgMember
    pub authenticated : IsAuthenticated req user
    pub member_in : Memᴰ member (p.rows s.members)
    pub is_own : member.user_id ≡ user.id
    pub is_named : member.org_id ≡ trim (or_else req.org_header "")
    pub granted : IsGranted p s member.org_id member.id key
    pub org :
        q.org ≡ some (record { id = member.org_id; membership_id = member.id; role = member.role })

  -- A request that gets to a route of the API that asks for a permission, and had no organization
  -- before, carries a token that the server verifies and that names a user in the table; if the
  -- token names a session, it is a valid one of that user; the request's organization is the one
  -- of its header, by a membership of that user; and that member has a role of that organization
  -- that grants the permission.
  pub api_route-IsAuthorized :
      (key : String) (req q : Request)
      → req.org ≡ none
      → api_route p verify key s req ≡ ok q
      → IsAuthorized key req q
  unfolding api_route require_permission
  api_route-IsAuthorized key req q none_yet h = elim (require_auth-cases req) [
    | inl (e, a) ↦ absurd (let bad = (rw a at h) in cc)
    | inr (u, au, l, auth, same, a) ↦
        elim (resolve-cases (record req { user = some au; locals = l }) au refl) [
          | inl (e, o) ↦ absurd (let bad = (rw (a, o) at h) in cc)
          | inr (inl o) ↦ absurd (let bad = (rw (a, o, none_yet) at h) in cc)
          | inr (inr (m, i, mine, named, o)) ↦
              elim (Bool-cases (has_permission p m.org_id m.id key s)) [
                | inr may_not ↦ absurd (let bad = (rw (a, o, may_not) at h) in cc)
                | inl may ↦ record {
                  user = u;
                  member = m;
                  authenticated = auth;
                  member_in = i;
                  is_own = mine ∙ same;
                  is_named = (eq_iff m.org_id (trim (or_else req.org_header ""))).0 named;
                  granted = (has_permission-IsGranted p s m.org_id m.id key).0 may;
                  org =
                      let same : with_org p m (record req { user = some au; locals = l }) ≡ q =
                        (let out = (rw (a, o, may) at h) in cc) in
                      rw (← same) refl;
                }
              ]
        ]
  ]
