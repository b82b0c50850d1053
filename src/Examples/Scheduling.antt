-- ===== src/Examples/Scheduling.antt =====
-- A route with two stops, an organization's default status and a booking.
use fsm_backend.Prelude.{
  ◌==◌, if◌then◌else◌, All, ◌++◌, ◌&&◌, ◌<◌, ◌≢◌, ◌≤◌, ◌⊎◌, ne_text, refl, none, some, [], ◌∷◌,
  Memᴰ, ◌≡◌, HasDistinctKeys, true, false, arith, str_eq,
}
use fsm_backend.Memory.{memory}
use fsm_backend.Errors.{prisma, p2002, ok, err, Thrown}
use fsm_backend.Scheduling.Types.{Route, Store, Env, Booking, BookingStatus, RouteStop}
use fsm_backend.Scheduling.Stops.{add_route_stop-cases}
use fsm_backend.Scheduling.Routes.{
  ensure_crew, ensure_route, renumber, move_stop, add_route_stop, in_route, reorder_route_stops,
}
use fsm_backend.Scheduling.Reorder.{stop_id, AreTaken, reorder_unchanged}
use fsm_backend.Scheduling.Statuses.{
  StatusInput, StatusUpdateInput, create_booking_status, update_booking_status,
}
use fsm_backend.Scheduling.Defaults.{defaults, status_id, create-defaults, update-defaults}
use fsm_backend.Scheduling.Bookings.{
  RequirementInput, BookingInput, create_booking, first_status, new_booking, requested,
  requirement_rows, create_requirements, resolve_status, change_booking_status, is_booking,
  default_status_missing,
}
use fsm_backend.Scheduling.StatusChange.{
  resolve_default, change_booking_status-cases, IsFirst, HasNone, IsRecorded,
}

abbrev env : Env
env = record { now = 1000; new_id = "new"; nested_id = λ n. "nested" }

abbrev scheduled : BookingStatus
scheduled = record {
  id = "status-1";
  org_id = "org-1";
  name = "Scheduled";
  description = none;
  is_default = true;
  is_active = true;
  sort_order = 0;
  created_at = 1;
}

abbrev finished : BookingStatus
finished = record scheduled {
  id = "status-2";
  name = "Finished";
  is_default = false;
  sort_order = 1;
}

abbrev booking : Booking
booking = record {
  id = "booking-1";
  org_id = "org-1";
  work_order_id = none;
  crew_id = "crew-1";
  status_id = "status-1";
  scheduled_start = none;
  scheduled_end = none;
  created_at = 2;
}

abbrev first_stop : RouteStop
first_stop = record {
  id = "stop-1";
  org_id = "org-1";
  route_id = "route-1";
  booking_id = "booking-1";
  position = 1;
  created_at = 3;
}

abbrev second_stop : RouteStop
second_stop = record first_stop { id = "stop-2"; booking_id = "booking-2"; position = 2 }

abbrev store : Store memory
unfolding memory
store = record {
  crews = record { id = "crew-1"; org_id = "org-1" } ∷ [];
  work_orders = [];
  statuses = scheduled ∷ finished ∷ [];
  bookings = booking ∷ [];
  requirements = [];
  events = [];
  routes =
      record {
        id = "route-1";
        org_id = "org-1";
        crew_id = "crew-1";
        route_date = 5;
        created_at = 2;
      }
      ∷ [];
  stops = first_stop ∷ second_stop ∷ [];
}

-- The second status is to be the default one.
abbrev make_default : StatusUpdateInput
make_default = record {
  name = none;
  description = none;
  is_default = some true;
  is_active = none;
  sort_order = none;
}

abbrev new_default : StatusInput
new_default = record {
  name = "On site";
  description = none;
  is_default = some true;
  is_active = none;
  sort_order = none;
}

stops-distinct : HasDistinctKeys stop_id (memory.rows store.stops)
unfolding memory
stops-distinct = ((ne_text "stop-2" "stop-1" refl, tt), (tt, tt))

stops-AreTaken : AreTaken "org-1" "route-1" 0 ("stop-2" ∷ "stop-1" ∷ []) (memory.rows store.stops)
unfolding memory
stops-AreTaken = (
  (first_stop, Memᴰ.head refl, refl, refl),
  ((second_stop, Memᴰ.tail (Memᴰ.head refl), refl, refl), tt),
)

statuses-distinct : HasDistinctKeys status_id (memory.rows store.statuses)
unfolding memory
statuses-distinct = ((ne_text "status-2" "status-1" refl, tt), (tt, tt))

one_default : defaults "org-1" (memory.rows store.statuses) ≤ 1
unfolding memory
one_default = omega arith

reorder_unchanged_example :
    memory.rows
      (reorder_route_stops memory "org-1" "route-1" ("stop-2" ∷ "stop-1" ∷ []) store).1.stops
    ≡ memory.rows store.stops
reorder_unchanged_example =
    reorder_unchanged memory "org-1" "route-1" ("stop-2" ∷ "stop-1" ∷ []) store stops-distinct
      stops-AreTaken

create-defaults_example :
    defaults "org-1"
      (memory.rows (create_booking_status memory env "org-1" new_default store).1.statuses)
    ≤ 1
create-defaults_example = create-defaults memory env "org-1" "org-1" new_default store one_default

update-defaults_example :
    defaults "org-1"
      (memory.rows (update_booking_status memory "org-1" "status-2" make_default store).1.statuses)
    ≤ 1
update-defaults_example =
    update-defaults memory "org-1" "status-2" "org-1" make_default store statuses-distinct
      one_default

resolve_default_example :
    ((r : BookingStatus) × (resolve_status memory "org-1" none store ≡ (ok r, store))
      × IsFirst "org-1" (λ b. b.is_default) (memory.rows store.statuses) r)
    ⊎ ((r : BookingStatus) × (resolve_status memory "org-1" none store ≡ (ok r, store))
        × HasNone "org-1" (λ b. b.is_default) (memory.rows store.statuses)
        × IsFirst "org-1" (λ b. true) (memory.rows store.statuses) r)
    ⊎ (resolve_status memory "org-1" none store ≡ (err default_status_missing, store))
      × HasNone "org-1" (λ b. true) (memory.rows store.statuses)
resolve_default_example = resolve_default memory "org-1" store

change_booking_status-cases_example :
    ((x : Thrown) × (change_booking_status memory env "org-1" "booking-1" "status-2" none store
        ≡ (err x, store)))
    ⊎ ((b : Booking) × (r : BookingStatus) × Memᴰ b (memory.rows store.bookings)
        × (is_booking "org-1" "booking-1" b ≡ true)
        × Memᴰ r (memory.rows store.statuses)
        × (str_eq r.org_id "org-1" ≡ true)
        × ((b.status_id ≡ r.id)
              × ((change_booking_status memory env "org-1" "booking-1" "status-2" none store).1
                  ≡ store)
            ⊎ (b.status_id ≢ r.id)
              × IsRecorded memory env "org-1" "booking-1" r.id none store
                  (change_booking_status memory env "org-1" "booking-1" "status-2" none store).1))
change_booking_status-cases_example =
    change_booking_status-cases memory env "org-1" "booking-1" "status-2" none store

add_route_stop-cases_example :
    ((e : Thrown) × (add_route_stop memory env "org-1" "route-1" "booking-1" store
        ≡ (err e, store)))
    ⊎ ((route : Route) × (booking : Booking) × (stop : RouteStop) × Memᴰ route
          (memory.rows store.routes)
        × ((str_eq route.id "route-1" && str_eq route.org_id "org-1") ≡ true)
        × Memᴰ booking (memory.rows store.bookings)
        × ((str_eq booking.id "booking-1" && str_eq booking.org_id "org-1") ≡ true)
        × (route.crew_id ≡ booking.crew_id)
        × ((add_route_stop memory env "org-1" "route-1" "booking-1" store).0 ≡ ok stop)
        × (memory.rows (add_route_stop memory env "org-1" "route-1" "booking-1" store).1.stops
            ≡ memory.rows store.stops ++ stop ∷ [])
        × (in_route "org-1" "route-1" stop ≡ true)
        × (stop.booking_id ≡ "booking-1")
        × All
            (λ q. in_route "org-1" "route-1" q ≡ true → q.position < stop.position)
            (memory.rows store.stops))
add_route_stop-cases_example = add_route_stop-cases memory "org-1" "route-1" env "booking-1" store

-- The update of the first stop listed fails: its new position is the other stop's.
reorder_fails :
    (reorder_route_stops memory "org-1" "route-1" ("stop-2" ∷ "stop-1" ∷ []) store).0
    ≡ err (prisma (p2002 ("orgId" ∷ "routeId" ∷ "position" ∷ [])))
unfolding memory reorder_route_stops ensure_route renumber move_stop
reorder_fails = refl

-- A booking that needs the same type of resource twice is not created.
abbrev van : RequirementInput
van = record { resource_type = "VAN"; quantity = none; notes = none }

abbrev two_vans : BookingInput
two_vans = record {
  work_order_id = none;
  crew_id = "crew-1";
  status_id = none;
  scheduled_start = none;
  scheduled_end = none;
  requirements = some (van ∷ van ∷ []);
}

abbrev two_ids : Env
two_ids = record env { nested_id = λ n. if n == 0 then "need-1" else "need-2" }

repeated_requirement :
    create_booking memory two_ids "org-1" two_vans store
    ≡ (err (prisma (p2002 ("orgId" ∷ "bookingId" ∷ "resourceType" ∷ []))), store)
unfolding memory create_booking ensure_crew resolve_status first_status new_booking requested
    requirement_rows create_requirements
repeated_requirement = refl
