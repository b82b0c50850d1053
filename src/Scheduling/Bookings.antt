-- ===== src/Scheduling/Bookings.antt =====
-- The booking service. modules/scheduling/bookings.service.ts
use fsm_backend.Prelude.{
  ℕ, suc, String, Bool, true, ◌&&◌, Option, none, some, List, [], ◌∷◌, or_else, opt_eq, truthy,
  str_eq, if◌then◌else◌,
}
use fsm_backend.Errors.{
  Thrown, app, M, ◌>>=◌, ◌>>◌, return, require, transaction, gets, commit, catch_unique,
}
use fsm_backend.Prisma.{Database, unordered, ascending_then}
use fsm_backend.Scheduling.Types.{
  WorkOrder, BookingStatus, Booking, ResourceRequirement, BookingStatusEvent, Store, Env,
  booking_unique, requirement_unique, event_unique,
}
use fsm_backend.Scheduling.Routes.{booking_not_found, ensure_crew}
use fsm_backend.Scheduling.Statuses.{status_not_found}

abbrev pub default_status_missing : Thrown
default_status_missing = app (record {
  message = "Default booking status missing";
  status_code = 400;
  code = "BOOKING_STATUS_DEFAULT_MISSING";
})

abbrev pub work_order_not_found : Thrown
work_order_not_found =
    app (record {
      message = "Work order not found";
      status_code = 404;
      code = "WORK_ORDER_NOT_FOUND";
    })

abbrev pub booking_exists : Thrown
booking_exists = app (record {
  message = "Booking already exists for work order";
  status_code = 409;
  code = "BOOKING_ALREADY_EXISTS";
})

pub record RequirementInput : Type 0 where
  pub resource_type : String
  pub quantity : Option ℕ
  pub notes : Option String

-- `BookingCreateInput`, its dates read by `toDate` already.
pub record BookingInput : Type 0 where
  pub work_order_id : Option String
  pub crew_id : String
  pub status_id : Option String
  pub scheduled_start : Option ℕ
  pub scheduled_end : Option ℕ
  pub requirements : Option (List RequirementInput)

-- `BookingUpdateInput`: a field left out is `none`; a date may be set to null.
pub record BookingUpdateInput : Type 0 where
  pub crew_id : Option String
  pub scheduled_start : Option (Option ℕ)
  pub scheduled_end : Option (Option ℕ)

abbrev pub is_booking : String → String → Booking → Bool
is_booking org_id id r = str_eq r.id id && str_eq r.org_id org_id

unfoldable pub requirement_rows :
    Env → String → ℕ → List RequirementInput → List ResourceRequirement
requirement_rows env org_id n [] = []
requirement_rows env org_id n (req ∷ reqs) =
    record {
      id = env.nested_id n;
      org_id = org_id;
      booking_id = env.new_id;
      resource_type = req.resource_type;
      quantity = or_else req.quantity 1;
      notes = req.notes;
    }
    ∷ requirement_rows env org_id (suc n) reqs

-- A booking with no requirement given needs one crew.
abbrev crew_requirement : RequirementInput
crew_requirement = record { resource_type = "CREW"; quantity = some 1; notes = none }

unfoldable pub requested : Option (List RequirementInput) → List RequirementInput
requested none = crew_requirement ∷ []
requested (some []) = crew_requirement ∷ []
requested (some (req ∷ reqs)) = req ∷ reqs

unfoldable pub new_booking : Env → String → BookingInput → String → Booking
new_booking env org_id input status_id = record {
  id = env.new_id;
  org_id = org_id;
  work_order_id = input.work_order_id;
  crew_id = input.crew_id;
  status_id = status_id;
  scheduled_start = input.scheduled_start;
  scheduled_end = input.scheduled_end;
  created_at = env.now;
}

abbrev pub new_event : Env → String → String → String → Option String → BookingStatusEvent
new_event env org_id booking_id status_id member = record {
  id = env.new_id;
  org_id = org_id;
  booking_id = booking_id;
  status_id = status_id;
  org_member_id = member;
  created_at = env.now;
}

unfoldable pub update_booking_fields : BookingUpdateInput → Booking → Booking
update_booking_fields input r = record r {
  crew_id = or_else input.crew_id r.crew_id;
  scheduled_start = or_else input.scheduled_start r.scheduled_start;
  scheduled_end = or_else input.scheduled_end r.scheduled_end;
}

module _ (p : Database) where
  unfoldable pub ensure_work_order : String → String → M (Store p) WorkOrder
  ensure_work_order org_id work_order_id = do
    work_order ← gets λ s.
        p.find_first unordered (λ r. str_eq r.id work_order_id && opt_eq r.org_id (some org_id))
          s.work_orders
    require work_order work_order_not_found

  -- `findFirst` of an organization's active statuses, default ones or any.
  unfoldable pub first_status : String → (BookingStatus → Bool) → Store p → Option BookingStatus
  first_status org_id w s =
      p.find_first (ascending_then (λ r. r.sort_order) (λ r. r.created_at))
        (λ r. str_eq r.org_id org_id && (w r && r.is_active)) s.statuses

  fallback_status : String → Option BookingStatus → M (Store p) BookingStatus
  fallback_status org_id (some status) = return status
  fallback_status org_id none = do
    fallback ← gets λ s. first_status org_id (λ r. true) s
    require fallback default_status_missing

  resolve_given : String → Option String → M (Store p) BookingStatus
  resolve_given org_id (some status_id) = do
    status ← gets λ s.
        p.find_first unordered (λ r. str_eq r.id status_id && str_eq r.org_id org_id) s.statuses
    require status status_not_found
  resolve_given org_id none = do
    status ← gets λ s. first_status org_id (λ r. r.is_default) s
    fallback_status org_id status

  unfoldable pub resolve_status : String → Option String → M (Store p) BookingStatus
  unfolding resolve_given fallback_status
  resolve_status org_id status_id = resolve_given org_id (truthy status_id)

  -- `if (id) await check(id)`
  abbrev pub when_given :
      {A : Type 0} → Option String → (String → M (Store p) A) → M (Store p) (Unit {0})
  when_given none check = return tt
  when_given (some id) check = check id >> return tt

  unfoldable pub create_requirements : List ResourceRequirement → M (Store p) (Unit {0})
  create_requirements [] = return tt
  create_requirements (r ∷ rs) = do
    λ s.
        commit s (λ t. record s { requirements = t }) (p.create requirement_unique r s.requirements)
    create_requirements rs

  unfoldable pub create_booking : Env → String → BookingInput → M (Store p) Booking
  create_booking env org_id input = do
    ensure_crew p org_id input.crew_id
    when_given (truthy input.work_order_id) (ensure_work_order org_id)
    status ← resolve_status org_id input.status_id
    let booking = new_booking env org_id input status.id
    λ s. catch_unique "workOrderId" booking_exists (
        transaction
          (do
            λ t.
                commit t (λ u. record t { bookings = u })
                  (p.create booking_unique booking t.bookings)
            create_requirements (requirement_rows env org_id 0 (requested input.requirements)))
          s)
    return booking

  unfoldable pub update_booking :
      String → String → BookingUpdateInput → M (Store p) (Option Booking)
  update_booking org_id id input = do
    existing ← gets λ s. p.find_first unordered (is_booking org_id id) s.bookings
    require existing booking_not_found
    when_given (truthy input.crew_id) (ensure_crew p org_id)
    λ s.
        commit s (λ t. record s { bookings = t })
          (p.update [] (λ r. str_eq r.id id) (update_booking_fields input) s.bookings)
    gets λ s. p.find_first unordered (λ r. str_eq r.id id) s.bookings

  -- The transaction of `changeBookingStatus`: the booking's new status, and the event.
  unfoldable pub write_status :
      Env → String → String → String → Option String → M (Store p) (Unit {0})
  write_status env org_id id status_id member = do
    λ s.
        commit s (λ t. record s { bookings = t })
          (p.update [] (λ r. str_eq r.id id) (λ r. record r { status_id = status_id }) s.bookings)
    λ s.
        commit s (λ t. record s { events = t })
          (p.create event_unique (new_event env org_id id status_id member) s.events)

  unfoldable pub change_booking_status :
      Env
      → String
      → String
      → String
      → Option String
      → M (Store p) (Option Booking × Option BookingStatusEvent)
  change_booking_status env org_id id status_id member = do
    found ← gets λ s. p.find_first unordered (is_booking org_id id) s.bookings
    booking ← require found booking_not_found
    status ← resolve_status org_id (some status_id)
    let same = str_eq booking.status_id status.id
    (if same then return tt else transaction (write_status env org_id id status.id member))
    current ← gets λ s. p.find_first unordered (λ r. str_eq r.id id) s.bookings
    return (current, (if same then none else some (new_event env org_id id status.id member)))
