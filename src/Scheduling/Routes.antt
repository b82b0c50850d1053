-- ===== src/Scheduling/Routes.antt =====
-- The route service. modules/scheduling/routes.service.ts
use fsm_backend.Prelude.{
  Bool, ℕ, suc, ◌+◌, String, not, ◌&&◌, Option, none, some, List, [], ◌∷◌, map, length, str_eq,
  elem, ◌==◌,
}
use fsm_backend.Errors.{
  Thrown, app, M, ◌>>=◌, ◌>>◌, return, require, guard, transaction, gets, commit, catch_unique, ok,
}
use fsm_backend.Prisma.{Database, unordered, ascending, descending}
use fsm_backend.Scheduling.Types.{
  Crew, Booking, Route, RouteStop, Store, Env, route_unique, position_unique, stop_unique,
}

abbrev pub route_not_found : Thrown
route_not_found =
    app (record { message = "Route not found"; status_code = 404; code = "ROUTE_NOT_FOUND" })

abbrev pub crew_not_found : Thrown
crew_not_found =
    app (record { message = "Crew not found"; status_code = 404; code = "CREW_NOT_FOUND" })

abbrev pub booking_not_found : Thrown
booking_not_found =
    app (record { message = "Booking not found"; status_code = 404; code = "BOOKING_NOT_FOUND" })

abbrev pub booking_crew_mismatch : Thrown
booking_crew_mismatch = app (record {
  message = "Booking crew does not match route";
  status_code = 409;
  code = "BOOKING_CREW_MISMATCH";
})

abbrev pub route_stop_not_found : Thrown
route_stop_not_found =
    app (record {
      message = "Route stop not found";
      status_code = 404;
      code = "ROUTE_STOP_NOT_FOUND";
    })

abbrev pub invalid_stop_order : Thrown
invalid_stop_order = app (record {
  message = "Route stop order is invalid";
  status_code = 400;
  code = "ROUTE_STOP_ORDER_INVALID";
})

abbrev pub route_exists : Thrown
route_exists = app (record {
  message = "Route already exists for crew/date";
  status_code = 409;
  code = "ROUTE_ALREADY_EXISTS";
})

abbrev pub booking_routed : Thrown
booking_routed = app (record {
  message = "Booking already assigned to a route";
  status_code = 409;
  code = "BOOKING_ALREADY_ROUTED";
})

-- `where: { orgId, routeId }`
abbrev pub in_route : String → String → RouteStop → Bool
in_route org_id route_id r = str_eq r.org_id org_id && str_eq r.route_id route_id

-- `(lastStop?.position ?? 0) + 1`
abbrev pub next_position : Option RouteStop → ℕ
next_position none = 1
next_position (some r) = r.position + 1

module _ (p : Database) where
  unfoldable pub ensure_crew : String → String → M (Store p) Crew
  ensure_crew org_id crew_id = do
    crew ←
        gets
          λ s. p.find_first unordered (λ r. str_eq r.id crew_id && str_eq r.org_id org_id) s.crews
    require crew crew_not_found

  unfoldable pub ensure_route : String → String → M (Store p) Route
  ensure_route org_id route_id = do
    route ←
        gets
          λ s. p.find_first unordered (λ r. str_eq r.id route_id && str_eq r.org_id org_id) s.routes
    require route route_not_found

  unfoldable pub ensure_booking : String → String → M (Store p) Booking
  ensure_booking org_id booking_id = do
    booking ← gets λ s.
        p.find_first unordered (λ r. str_eq r.id booking_id && str_eq r.org_id org_id) s.bookings
    require booking booking_not_found

  unfoldable pub create_route : Env → String → String → ℕ → M (Store p) Route
  create_route env org_id crew_id route_date = do
    ensure_crew org_id crew_id
    let route : Route = record {
      id = env.new_id;
      org_id = org_id;
      crew_id = crew_id;
      route_date = route_date;
      created_at = env.now;
    }
    λ s.
        catch_unique "routeDate" route_exists
          (commit s (λ t. record s { routes = t }) (p.create route_unique route s.routes))
    return route

  unfoldable pub last_stop : String → String → Store p → Option RouteStop
  last_stop org_id route_id s =
      p.find_first (descending (λ r. r.position)) (in_route org_id route_id) s.stops

  unfoldable pub add_route_stop : Env → String → String → String → M (Store p) RouteStop
  add_route_stop env org_id route_id booking_id = do
    route ← ensure_route org_id route_id
    booking ← ensure_booking org_id booking_id
    guard (str_eq route.crew_id booking.crew_id) booking_crew_mismatch
    last ← gets λ s. last_stop org_id route_id s
    let stop : RouteStop = record {
      id = env.new_id;
      org_id = org_id;
      route_id = route_id;
      booking_id = booking_id;
      position = next_position last;
      created_at = env.now;
    }
    λ s.
        catch_unique "bookingId" booking_routed
          (commit s (λ t. record s { stops = t }) (p.create stop_unique stop s.stops))
    return stop

  -- `update({ where: { id }, data: { position } })`
  unfoldable pub move_stop : String → ℕ → M (Store p) (Unit {0})
  move_stop id position s =
      commit s (λ t. record s { stops = t })
        (p.update position_unique (λ r. str_eq r.id id) (λ r. record r { position = position })
          s.stops)

  -- The updates of the transaction: the stops get the positions from `k + 1` on.
  unfoldable pub renumber : ℕ → List String → M (Store p) (Unit {0})
  renumber k [] = return tt
  renumber k (id ∷ ids) = do move_stop id (k + 1); renumber (suc k) ids

  unfoldable pub reorder_route_stops : String → String → List String → M (Store p) (List RouteStop)
  reorder_route_stops org_id route_id stop_ids = do
    ensure_route org_id route_id
    stops ←
        gets
          λ s. p.find_many unordered (λ r. in_route org_id route_id r && elem r.id stop_ids) s.stops
    guard (length stops == length stop_ids) invalid_stop_order
    transaction (renumber 0 stop_ids)
    gets λ s. p.find_many (ascending (λ r. r.position)) (in_route org_id route_id) s.stops

  unfoldable pub remove_route_stop : String → String → String → M (Store p) (Unit {0})
  remove_route_stop org_id route_id stop_id = do
    removed ← λ s.
        let (t, n) =
          p.delete_many (λ r. str_eq r.id stop_id && in_route org_id route_id r) s.stops in
        (ok n, record s { stops = t })
    guard (not (removed == 0)) route_stop_not_found
    remaining ←
        gets λ s. p.find_many (ascending (λ r. r.position)) (in_route org_id route_id) s.stops
    transaction (renumber 0 (map (λ r. r.id) remaining))
