-- ===== src/Scheduling/Types.antt =====
-- The tables of scheduling: crews, bookings and their statuses, routes and their stops.
-- prisma/schema.prisma, modules/scheduling/dto/
use fsm_backend.Prelude.{ℕ, String, Bool, Option, none, some, List, [], ◌∷◌, ◌&&◌, str_eq, ◌==◌}
use fsm_backend.Prisma.{Unique, Database}

pub record Crew : Type 0 where
  pub id : String
  pub org_id : String

pub record WorkOrder : Type 0 where
  pub id : String
  pub org_id : Option String

pub record BookingStatus : Type 0 where
  pub id : String
  pub org_id : String
  pub name : String
  pub description : Option String
  pub is_default : Bool
  pub is_active : Bool
  pub sort_order : ℕ
  pub created_at : ℕ

pub record Booking : Type 0 where
  pub id : String
  pub org_id : String
  pub work_order_id : Option String
  pub crew_id : String
  pub status_id : String
  pub scheduled_start : Option ℕ
  pub scheduled_end : Option ℕ
  pub created_at : ℕ

pub record ResourceRequirement : Type 0 where
  pub id : String
  pub org_id : String
  pub booking_id : String
  pub resource_type : String
  pub quantity : ℕ
  pub notes : Option String

pub record BookingStatusEvent : Type 0 where
  pub id : String
  pub org_id : String
  pub booking_id : String
  pub status_id : String
  pub org_member_id : Option String
  pub created_at : ℕ

pub record Route : Type 0 where
  pub id : String
  pub org_id : String
  pub crew_id : String
  pub route_date : ℕ
  pub created_at : ℕ

pub record RouteStop : Type 0 where
  pub id : String
  pub org_id : String
  pub route_id : String
  pub booking_id : String
  pub position : ℕ
  pub created_at : ℕ

pub record Store (p : Database) : Type 0 where
  pub crews : p.Table Crew
  pub work_orders : p.Table WorkOrder
  pub statuses : p.Table BookingStatus
  pub bookings : p.Table Booking
  pub requirements : p.Table ResourceRequirement
  pub events : p.Table BookingStatusEvent
  pub routes : p.Table Route
  pub stops : p.Table RouteStop

-- The clock, and the ids that the database generates for the rows of one request.
pub record Env : Type 0 where
  pub now : ℕ
  pub new_id : String
  pub nested_id : ℕ → String

-- A null agrees with nothing.
abbrev pub both_eq : Option String → Option String → Bool
both_eq (some a) (some b) = str_eq a b
both_eq (some a) none = Bool.false
both_eq none b = Bool.false

-- `@id` and the `@@unique` lines of the schema.
abbrev pub status_name_unique : List (Unique BookingStatus)
status_name_unique =
    record {
      target = "orgId" ∷ "name" ∷ [];
      clash = λ a b. str_eq a.org_id b.org_id && str_eq a.name b.name;
    }
    ∷ []

abbrev pub status_unique : List (Unique BookingStatus)
status_unique = record { target = "id" ∷ []; clash = λ a b. str_eq a.id b.id } ∷ status_name_unique

abbrev pub booking_unique : List (Unique Booking)
booking_unique =
    record { target = "id" ∷ []; clash = λ a b. str_eq a.id b.id }
    ∷ record {
      target = "orgId" ∷ "workOrderId" ∷ [];
      clash = λ a b. str_eq a.org_id b.org_id && both_eq a.work_order_id b.work_order_id;
    }
    ∷ []

abbrev pub requirement_unique : List (Unique ResourceRequirement)
requirement_unique =
    record { target = "id" ∷ []; clash = λ a b. str_eq a.id b.id }
    ∷ record {
      target = "orgId" ∷ "bookingId" ∷ "resourceType" ∷ [];
      clash = λ a b.
          str_eq a.org_id b.org_id
          && (str_eq a.booking_id b.booking_id && str_eq a.resource_type b.resource_type);
    }
    ∷ []

abbrev pub event_unique : List (Unique BookingStatusEvent)
event_unique = record { target = "id" ∷ []; clash = λ a b. str_eq a.id b.id } ∷ []

abbrev pub route_unique : List (Unique Route)
route_unique =
    record { target = "id" ∷ []; clash = λ a b. str_eq a.id b.id }
    ∷ record {
      target = "orgId" ∷ "crewId" ∷ "routeDate" ∷ [];
      clash = λ a b.
          str_eq a.org_id b.org_id && str_eq a.crew_id b.crew_id && a.route_date == b.route_date;
    }
    ∷ []

-- The constraint that an update of a stop's position can violate.
abbrev pub position_unique : List (Unique RouteStop)
position_unique =
    record {
      target = "orgId" ∷ "routeId" ∷ "position" ∷ [];
      clash = λ a b.
          str_eq a.org_id b.org_id && str_eq a.route_id b.route_id && a.position == b.position;
    }
    ∷ []

abbrev pub stop_unique : List (Unique RouteStop)
stop_unique =
    record { target = "id" ∷ []; clash = λ a b. str_eq a.id b.id }
    ∷ record {
      target = "orgId" ∷ "bookingId" ∷ [];
      clash = λ a b. str_eq a.org_id b.org_id && str_eq a.booking_id b.booking_id;
    }
    ∷ position_unique
