-- ===== src/Auth/Rotation.antt =====
-- The rotation of refresh tokens. modules/auth/auth.service.ts
use fsm_backend.Prelude.{
  HasDistinctKeys-mem, mem-written, All-of_mem, Option-cases, All-written, All-mem, str_eq, eq_iff,
  ap, ◌∙◌, Memᴰ, ◌⊎◌, ◌≢◌, update_where, Bool, ◌≡◌, HasDistinctKeys, [], ◌∷◌, refl, inl, inr, sym,
  Bool-cases, String, List, All, true, false, none, some, truthy,
}
use fsm_backend.Errors.{Result, Result-cases, Thrown, ok, err}
use fsm_backend.Prisma.{Database, unordered, find_first-cases, update_free}
use fsm_backend.Auth.Types.{Store, Env, Session, Minted}
use fsm_backend.Auth.Tokens.{
  decode_refresh, token_equals_hash, mint_session_tokens, hash_token, verify_refresh, Libraries,
  RefreshClaims,
}
use fsm_backend.Auth.Sessions.{
  session_invalid, is_session_expired, refresh_required, with_token, refresh_reuse, update_session,
  refresh, revoked,
}

module _ (p : Database) (x : Libraries) (env : Env) where
  -- A refresh fails and changes nothing but the sessions, which it at most revokes, or stores the
  -- new token's hash in the valid session of the verified claims, whose stored hash was that of
  -- the token presented.
  pub refresh-cases :
      (token : String) (s : Store p)
      → ((e : Thrown) × ((refresh p x env token s).0 ≡ err e)
          × (w : Session → Bool) × (p.rows (refresh p x env token s).1.sessions
              ≡ update_where w revoked (p.rows s.sessions))
          × ((refresh p x env token s).1
              ≡ record s { sessions = (refresh p x env token s).1.sessions }))
        ⊎ ((c : RefreshClaims) × (r : Session) × (t : p.Table Session) × (verify_refresh x env.now
                token
              ≡ ok c)
            × Memᴰ r (p.rows s.sessions)
            × (r.id ≡ c.sid)
            × (r.valid ≡ true)
            × (hash_token x token ≡ r.token)
            × (str_eq token "" ≡ false)
            × (refresh p x env token s
                ≡ (ok (mint_session_tokens x env c.sub c.sid), record s { sessions = t }))
            × (p.rows t
                ≡ update_where
                    (λ q. str_eq q.id c.sid)
                    (with_token
                      (hash_token x (mint_session_tokens x env c.sub c.sid).refresh_token))
                    (p.rows s.sessions)))
  unfolding refresh update_session
  refresh-cases token s = elim (Bool-cases (str_eq token "")) [
    | inl h ↦
        inl (
          refresh_required,
          rw h,
          (λ r. false),
          rw h (sym (nothing (p.rows s.sessions))),
          rw h refl,
        )
    | inr h ↦ elim (Result-cases (verify_refresh x env.now token)) [
      | inr (e, bad) ↦
          elim (Option-cases
            (truthy (elim (decode_refresh x token) [ none ↦ none | some c ↦ some c.sid ]))) [
              | inl g ↦ inl (
                e,
                rw (h, bad, g),
                (λ r. false),
                rw (h, bad, g) (sym (nothing (p.rows s.sessions))),
                rw (h, bad, g) refl,
              )
              | inr (sid, g) ↦ elim (Bool-cases (is_session_expired e)) [
                | inl late ↦ inl (
                  e,
                  rw (h, bad, g),
                  (λ r. str_eq r.id sid),
                  rw (h, bad, g, late)
                      (p.update_many_law (λ r. str_eq r.id sid) revoked s.sessions).0,
                  rw (h, bad, g, late) refl,
                )
                | inr other ↦ inl (
                  e,
                  rw (h, bad, g),
                  (λ r. false),
                  rw (h, bad, g, other) (sym (nothing (p.rows s.sessions))),
                  rw (h, bad, g, other) refl,
                )
              ]
            ]
      | inl (c, good) ↦ elim (find_first-cases p unordered (λ r. str_eq r.id c.sid) s.sessions) [
        | inl (e, none_of) ↦ inl (
          session_invalid,
          rw (h, good, e),
          (λ r. false),
          rw (h, good, e) (sym (nothing (p.rows s.sessions))),
          rw (h, good, e) refl,
        )
        | inr (r, e, k, m) ↦ elim (Bool-cases r.valid) [
          | inr dead ↦ inl (
            session_invalid,
            rw (h, good, e, dead),
            (λ r. false),
            rw (h, good, e, dead) (sym (nothing (p.rows s.sessions))),
            rw (h, good, e, dead) refl,
          )
          | inl live ↦ elim (Bool-cases (token_equals_hash x token r.token)) [
            | inr other ↦ inl (
              refresh_reuse,
              rw (h, good, e, live, other),
              (λ q. str_eq q.user_id r.user_id),
              rw (h, good, e, live, other)
                  (p.update_many_law (λ q. str_eq q.user_id r.user_id) revoked s.sessions).0,
              rw (h, good, e, live, other) refl,
            )
            | inl same ↦
                let minted = mint_session_tokens x env c.sub c.sid in
                let (t, u, q) =
                  update_free p (λ q. str_eq q.id c.sid)
                    (with_token (hash_token x minted.refresh_token)) s.sessions k m in
                inr (
                  c,
                  r,
                  t,
                  good,
                  m,
                  (eq_iff r.id c.sid).0 k,
                  live,
                  (eq_iff (hash_token x token) r.token).0 same,
                  h,
                  rw (h, good, e, live, same, u),
                  q,
                )
          ]
        ]
      ]
    ]
  ]
    where
      nothing : (rs : List Session) → update_where (λ r. false) revoked rs ≡ rs
      nothing [] = refl
      nothing (r ∷ rs) = rw (nothing rs)

module _ (p : Database) (x : Libraries) where
  -- A token that is not the session's any more, presented for a table with the session.
  reused :
      (env : Env) (token : String) (s : Store p) (c : RefreshClaims) (r r' : Session)
      → verify_refresh x env.now token ≡ ok c
      → str_eq token "" ≡ false
      → Memᴰ r' (p.rows s.sessions)
      → r'.id ≡ c.sid
      → All (λ q. str_eq q.id c.sid ≡ true → q ≡ r') (p.rows s.sessions)
      → r'.valid ≡ true
      → r'.user_id ≡ r.user_id
      → token_equals_hash x token r'.token ≡ false
      → ((refresh p x env token s).0 ≡ err refresh_reuse)
        × All
            (λ q. q.user_id ≡ r.user_id → q.valid ≡ false)
            (p.rows (refresh p x env token s).1.sessions)
  unfolding refresh
  reused env token s c r r' good h m same only live own other =
      elim (find_first-cases p unordered (λ q. str_eq q.id c.sid) s.sessions) [
        | inl (e, none_of) ↦
            let bad = All-mem (λ q. str_eq q.id c.sid ≡ false) (p.rows s.sessions) none_of m in
            (let k = (eq_iff r'.id c.sid).1 same in cc)
        | inr (q, e, k, i) ↦
            let q_is : q ≡ r' =
              All-mem (λ q. str_eq q.id c.sid ≡ true → q ≡ r') (p.rows s.sessions) only i k in
            let e' : p.find_first unordered (λ q. str_eq q.id c.sid) s.sessions ≡ some r' =
              e ∙ ap some q_is in
            (
              rw (h, good, e', live, other),
              rw (h, good, e', live, other)
                  (rw (p.update_many_law (λ q. str_eq q.user_id r'.user_id) revoked s.sessions).0 (
                    All-written (λ q. q.user_id ≡ r.user_id → q.valid ≡ false) (λ q. Unit)
                      (λ q. str_eq q.user_id r'.user_id) revoked (p.rows s.sessions)
                      (λ q w u j. refl)
                      (λ q w u j. (let k = (eq_iff q.user_id r'.user_id).1 (j ∙ sym own) in cc))
                      (All-of_mem (λ q. Unit) (p.rows s.sessions) (λ q i. tt)))),
            )
      ]

  -- A refresh token that was exchanged for another works only once: presented again while it still
  -- verifies with the same claims it is refused with REFRESH_REUSE, and no session of the user is
  -- left valid, if session ids are distinct and the two tokens hash differently.
  pub refresh-refresh :
      (env env' : Env) (token : String) (s s' : Store p) (minted : Minted)
      → HasDistinctKeys (λ (r : Session). r.id) (p.rows s.sessions)
      → refresh p x env token s ≡ (ok minted, s')
      → verify_refresh x env'.now token ≡ verify_refresh x env.now token
      → hash_token x token ≢ hash_token x minted.refresh_token
      → (r : Session) × Memᴰ r (p.rows s.sessions)
        × (hash_token x token ≡ r.token)
        × ((refresh p x env' token s').0 ≡ err refresh_reuse)
        × All
            (λ q. q.user_id ≡ r.user_id → q.valid ≡ false)
            (p.rows (refresh p x env' token s').1.sessions)
  unfolding refresh
  refresh-refresh env env' token s s' minted d done still differ =
      elim (refresh-cases p x env token s) [
        | inl (e, bad, _, _, _) ↦
            (let q = ap (λ (r : Result Minted × Store p). r.0) done in
              let z : Path (Result Minted) (err e) (ok minted) = sym bad ∙ q in cc)
        | inr (c, r, t, good, m, same_id, live, same, h, result, rows_t) ↦
            let pair = sym result ∙ done in
            let s_is : s' ≡ record s { sessions = t } =
              sym (ap (λ (r : Result Minted × Store p). r.1) pair) in
            let m_is : minted ≡ mint_session_tokens x env c.sub c.sid =
              (let k = ap (λ (r : Result Minted × Store p). r.0) pair in cc) in
            let new = hash_token x (mint_session_tokens x env c.sub c.sid).refresh_token in
            let f = with_token new in
            let w : Session → Bool = λ q. str_eq q.id c.sid in
            let k = (eq_iff r.id c.sid).1 same_id in
            let facts =
              reused env' token (record s { sessions = t }) c r (f r) (still ∙ good) h
                (rw rows_t (mem-written w f (p.rows s.sessions) k m)) same_id
                (rw rows_t (
                  All-written (λ q. w q ≡ true → q ≡ f r) (λ q. q.id ≡ r.id → q ≡ r) w f
                    (p.rows s.sessions)
                    (λ q hit only j. ap f (only ((eq_iff q.id c.sid).0 hit ∙ sym same_id)))
                    (λ q out only j. (let bad : true ≡ false = sym j ∙ out in cc))
                    (HasDistinctKeys-mem (λ (r : Session). r.id) (p.rows s.sessions) d m)))
                live refl
                (elim (Bool-cases (str_eq (hash_token x token) new)) [
                  | inr out ↦ out
                  | inl e ↦ absurd (
                      differ (
                        (eq_iff (hash_token x token) new).0 e
                        ∙ ap (λ (m : Minted). hash_token x m.refresh_token) (sym m_is)))
                ]) in
            (r, m, same, rw s_is facts.0, rw s_is facts.1)
      ]
