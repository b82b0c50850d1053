-- ===== src/Scheduling/Stops.antt =====
-- Where a new stop of a route goes. modules/scheduling/routes.service.ts
use fsm_backend.Prelude.{
  if◌then◌else◌, leb→le, eq_iff, eq_refl, ◌+◌, ◌∙◌, sym, ◌++◌, All-imp, ◌&&◌, Memᴰ, ◌<◌, All, ◌⊎◌,
  String, inl, inr, refl, Bool-cases, arith, true, false, str_eq, [], ◌∷◌, ◌≡◌,
}
use fsm_backend.Errors.{
  is_unique_constraint_error, prisma, p2002, Thrown, ok, err, is_unique_constraint_error,
}
use fsm_backend.Prisma.{Database, unordered, descending, find_first-cases}
use fsm_backend.Scheduling.Types.{Route, Booking, RouteStop, Store, Env, stop_unique}
use fsm_backend.Scheduling.Routes.{
  booking_routed, route_not_found, booking_not_found, booking_crew_mismatch, booking_not_found,
  route_not_found, add_route_stop, in_route, last_stop, next_position, ensure_route, ensure_booking,
}

module _ (p : Database) (org_id route_id : String) where
  -- The position found is behind all the stops of the route.
  next_position-last_stop :
      (s : Store p)
      → All
          (λ q.
            in_route org_id route_id q ≡ true
            → q.position < next_position (last_stop p org_id route_id s))
          (p.rows s.stops)
  unfolding last_stop
  next_position-last_stop s =
      let order = descending (λ (r : RouteStop). r.position) in
      elim (p.find_first_law order (in_route org_id route_id) s.stops) [
        | inl (e, h) ↦ rw e (
            All-imp (λ q. in_route org_id route_id q ≡ false)
              (λ q. in_route org_id route_id q ≡ true → q.position < 1) (p.rows s.stops)
              (λ q out here. (let bad : true ≡ false = sym here ∙ out in cc)) h)
        | inr (r, e, h, m, top) ↦ rw e (
            All-imp (λ q. in_route org_id route_id q ≡ true → order.le r q ≡ true)
              (λ q. in_route org_id route_id q ≡ true → q.position < r.position + 1)
              (p.rows s.stops)
              (λ q le here. (let k = leb→le q.position r.position (le here) in omega arith)) top)
      ]

  -- Adding a stop fails and changes nothing, or adds to a route of the organization one stop for a
  -- booking of the same crew, at a position behind all the stops of the route.
  pub add_route_stop-cases :
      (env : Env) (booking_id : String) (s : Store p)
      → ((e : Thrown) × (add_route_stop p env org_id route_id booking_id s ≡ (err e, s)))
        ⊎ ((route : Route) × (booking : Booking) × (stop : RouteStop) × Memᴰ route (p.rows s.routes)
            × ((str_eq route.id route_id && str_eq route.org_id org_id) ≡ true)
            × Memᴰ booking (p.rows s.bookings)
            × ((str_eq booking.id booking_id && str_eq booking.org_id org_id) ≡ true)
            × (route.crew_id ≡ booking.crew_id)
            × ((add_route_stop p env org_id route_id booking_id s).0 ≡ ok stop)
            × (p.rows (add_route_stop p env org_id route_id booking_id s).1.stops
                ≡ p.rows s.stops ++ stop ∷ [])
            × (in_route org_id route_id stop ≡ true)
            × (stop.booking_id ≡ booking_id)
            × All
                (λ q. in_route org_id route_id q ≡ true → q.position < stop.position)
                (p.rows s.stops))
  unfolding add_route_stop ensure_route ensure_booking
  add_route_stop-cases env booking_id s =
      elim (find_first-cases p unordered (λ r. str_eq r.id route_id && str_eq r.org_id org_id)
        s.routes) [
          | inl (e, h) ↦ inl (route_not_found, rw e)
          | inr (r, e, h, m) ↦
              elim (find_first-cases p unordered
                (λ r. str_eq r.id booking_id && str_eq r.org_id org_id) s.bookings) [
                  | inl (e', h') ↦ inl (booking_not_found, rw (e, e'))
                  | inr (b, e', h', m') ↦ elim (Bool-cases (str_eq r.crew_id b.crew_id)) [
                    | inr other ↦ inl (booking_crew_mismatch, rw (e, e', other))
                    | inl same ↦
                        let stop : RouteStop = record {
                          id = env.new_id;
                          org_id = org_id;
                          route_id = route_id;
                          booking_id = booking_id;
                          position = next_position (last_stop p org_id route_id s);
                          created_at = env.now;
                        } in
                        elim (p.create_law stop_unique stop s.stops) [
                          | inr (u, c, _, _) ↦ inl (
                            (if is_unique_constraint_error (prisma (p2002 u.target)) "bookingId"
                                then booking_routed
                                else prisma (p2002 u.target)),
                            rw (e, e', same, c),
                          )
                          | inl (t, c, _, q) ↦ inr (
                            r,
                            b,
                            stop,
                            m,
                            h,
                            m',
                            h',
                            (eq_iff r.crew_id b.crew_id).0 same,
                            rw (e, e', same, c),
                            rw (e, e', same, c) q,
                            rw (eq_refl org_id, eq_refl route_id) refl,
                            refl,
                            next_position-last_stop s,
                          )
                        ]
                  ]
                ]
        ]
