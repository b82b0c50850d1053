-- ===== src/Scheduling/StatusChange.antt =====
-- The status of a booking: which one a request means, and what changing it records.
use fsm_backend.Scheduling.Statuses.{status_not_found}
use fsm_backend.Scheduling.Routes.{booking_not_found}
use fsm_backend.Prelude.{
  String, ◌≡◌, refl, ◌≢◌, ◌⊎◌, inl, inr, Bool, true, false, ◌&&◌, Option, none, some, List, [], ◌∷◌,
  ◌++◌, Memᴰ, All, update_where, str_eq, truthy, Option-cases, Bool-cases, eq_iff, arith,
}
use fsm_backend.Errors.{p2002, prisma, transaction, Thrown, err, ok}
use fsm_backend.Prisma.{ascending_then, lex, Database, unordered, find_first-cases, update_free}
use fsm_backend.Scheduling.Types.{BookingStatus, Booking, Store, Env, event_unique}
use fsm_backend.Scheduling.Bookings.{
  is_booking, new_event, first_status, resolve_status, write_status, change_booking_status,
  default_status_missing,
}

abbrev with_status : String → Booking → Booking
with_status status_id b = record b { status_id = status_id }

-- The order of the default and the fallback status.
abbrev pub precedes : BookingStatus → BookingStatus → Bool
precedes a b = lex a.sort_order a.created_at b.sort_order b.created_at

-- The first of an organization's active statuses that pass a test.
abbrev pub IsFirst : String → (BookingStatus → Bool) → List BookingStatus → BookingStatus → Type 0
IsFirst org_id w rs r =
    Memᴰ r rs
    × ((str_eq r.org_id org_id && (w r && r.is_active)) ≡ true)
    × All (λ s. (str_eq s.org_id org_id && (w s && s.is_active)) ≡ true → precedes r s ≡ true) rs

-- No status of the organization is active and passes a test.
abbrev pub HasNone : String → (BookingStatus → Bool) → List BookingStatus → Type 0
HasNone org_id w rs = All (λ s. (str_eq s.org_id org_id && (w s && s.is_active)) ≡ false) rs

module _ (p : Database) where
  first_status-cases :
      (org_id : String) (w : BookingStatus → Bool) (s : Store p)
      → ((first_status p org_id w s ≡ none) × HasNone org_id w (p.rows s.statuses))
        ⊎ ((r : BookingStatus) × (first_status p org_id w s ≡ some r)
            × IsFirst org_id w (p.rows s.statuses) r)
  unfolding first_status
  first_status-cases org_id w s =
      elim (p.find_first_law (ascending_then (λ b. b.sort_order) (λ b. b.created_at))
        (λ r. str_eq r.org_id org_id && (w r && r.is_active)) s.statuses) [
          | inl (e, h) ↦ inl (e, h)
          | inr (r, e, h, m, l) ↦ inr (r, e, (m, h, l))
        ]

  -- With no status asked for, a booking gets the first active default status of its organization
  -- in the order of the query, the first active one if no active one is a default, and an error if
  -- none is active.
  pub resolve_default :
      (org_id : String) (s : Store p)
      → ((r : BookingStatus) × (resolve_status p org_id none s ≡ (ok r, s))
          × IsFirst org_id (λ b. b.is_default) (p.rows s.statuses) r)
        ⊎ ((r : BookingStatus) × (resolve_status p org_id none s ≡ (ok r, s))
            × HasNone org_id (λ b. b.is_default) (p.rows s.statuses)
            × IsFirst org_id (λ b. true) (p.rows s.statuses) r)
        ⊎ (resolve_status p org_id none s ≡ (err default_status_missing, s))
          × HasNone org_id (λ b. true) (p.rows s.statuses)
  unfolding resolve_status
  resolve_default org_id s = elim (first_status-cases org_id (λ b. b.is_default) s) [
    | inr (r, e, f) ↦ inl (r, rw e, f)
    | inl (e, n) ↦ elim (first_status-cases org_id (λ b. true) s) [
      | inr (r, e', f) ↦ inr (inl (r, rw (e, e'), n, f))
      | inl (e', n') ↦ inr (inr (rw (e, e'), n'))
    ]
  ]

  resolve_status-cases :
      (org_id : String) (id : Option String) (s : Store p)
      → ((x : Thrown) × (resolve_status p org_id id s ≡ (err x, s)))
        ⊎ ((r : BookingStatus) × (resolve_status p org_id id s ≡ (ok r, s))
            × Memᴰ r (p.rows s.statuses)
            × (str_eq r.org_id org_id ≡ true))
  unfolding resolve_status
  resolve_status-cases org_id id s = elim (Option-cases (truthy id)) [
    | inl e ↦ elim (resolve_default org_id s) [
      | inl (r, q, (m, h, l)) ↦ inr (r, rw e (unfold resolve_status in q), m, ground arith)
      | inr (inl (r, q, n, (m, h, l))) ↦ inr (r, rw e (unfold resolve_status in q), m, ground arith)
      | inr (inr (q, n)) ↦ inl (default_status_missing, rw e (unfold resolve_status in q))
    ]
    | inr (k, e) ↦
        elim (find_first-cases p unordered (λ r. str_eq r.id k && str_eq r.org_id org_id)
          s.statuses) [
            | inl (f, h) ↦ inl (status_not_found, rw (e, f))
            | inr (r, f, h, m) ↦ inr (r, rw (e, f), m, ground arith)
          ]
  ]

  -- A status change of a booking: of the four tables involved, what is written to two of them.
  abbrev pub IsRecorded :
      Env → String → String → String → Option String → Store p → Store p → Type 0
  IsRecorded env org_id id status_id member s t =
      (p.rows t.bookings
        ≡ update_where (λ r. str_eq r.id id) (with_status status_id) (p.rows s.bookings))
      × (p.rows t.events ≡ p.rows s.events ++ new_event env org_id id status_id member ∷ [])
      × (t.statuses ≡ s.statuses)
      × (t.requirements ≡ s.requirements)

  write_status-cases :
      (env : Env) (org_id id status_id : String) (member : Option String) (s : Store p)
      (b : Booking)
      → str_eq b.id id ≡ true
      → Memᴰ b (p.rows s.bookings)
      → ((x : Thrown) × (transaction (write_status p env org_id id status_id member) s
            ≡ (err x, s)))
        ⊎ ((t : Store p) × (transaction (write_status p env org_id id status_id member) s
              ≡ (ok tt, t))
            × IsRecorded env org_id id status_id member s t)
  unfolding write_status
  write_status-cases env org_id id status_id member s b h m =
      let (t, e, q) =
        update_free p (λ r. str_eq r.id id) (with_status status_id) s.bookings {r = b} h m in
      elim (p.create_law event_unique (new_event env org_id id status_id member) s.events) [
        | inl (u, c, _, k) ↦
            inr (record s { bookings = t; events = u }, rw (e, c), (q, k, refl, refl))
        | inr (u, c, _, _) ↦ inl (prisma (p2002 u.target), rw (e, c))
      ]

  -- Changing a booking's status throws and changes nothing, or finds that the booking has the
  -- status and changes nothing, or writes the status of a row of the organization to the booking
  -- and appends one event that records it.
  pub change_booking_status-cases :
      (env : Env) (org_id id status_id : String) (member : Option String) (s : Store p)
      → ((x : Thrown) × (change_booking_status p env org_id id status_id member s ≡ (err x, s)))
        ⊎ ((b : Booking) × (r : BookingStatus) × Memᴰ b (p.rows s.bookings)
            × (is_booking org_id id b ≡ true)
            × Memᴰ r (p.rows s.statuses)
            × (str_eq r.org_id org_id ≡ true)
            × ((b.status_id ≡ r.id)
                  × ((change_booking_status p env org_id id status_id member s).1 ≡ s)
                ⊎ (b.status_id ≢ r.id)
                  × IsRecorded env org_id id r.id member s
                      (change_booking_status p env org_id id status_id member s).1))
  unfolding change_booking_status
  change_booking_status-cases env org_id id status_id member s =
      elim (find_first-cases p unordered (is_booking org_id id) s.bookings) [
        | inl (e, h) ↦ inl (booking_not_found, rw e)
        | inr (b, e, h, m) ↦ elim (resolve_status-cases org_id (some status_id) s) [
          | inl (x, f) ↦ inl (x, rw (e, f))
          | inr (r, f, n, own) ↦ elim (Bool-cases (str_eq b.status_id r.id)) [
            | inl same ↦ inr (b, r, m, h, n, own, inl ((eq_iff _ _).0 same, rw (e, f, same)))
            | inr other ↦ elim (write_status-cases env org_id id r.id member s b (ground arith) m) [
              | inl (x, g) ↦ inl (x, rw (e, f, other, g))
              | inr (t, g, done) ↦ inr (
                b,
                r,
                m,
                h,
                n,
                own,
                inr (
                  (λ q. (let y = (eq_iff b.status_id r.id).1 q in cc)),
                  rw (e, f, other, g) done,
                ),
              )
            ]
          ]
        ]
      ]
