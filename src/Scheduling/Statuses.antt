-- ===== src/Scheduling/Statuses.antt =====
-- The booking statuses of an organization. modules/scheduling/statuses.service.ts
use fsm_backend.Prelude.{
  ℕ, String, Bool, true, false, not, ◌&&◌, Option, List, or_else, str_eq, if◌then◌else◌,
}
use fsm_backend.Errors.{
  Thrown, app, M, ◌>>=◌, ◌>>◌, return, require, transaction, gets, commit, catch_unique, ok,
}
use fsm_backend.Prisma.{Database, unordered, ascending_then}
use fsm_backend.Scheduling.Types.{BookingStatus, Store, Env, status_unique, status_name_unique}

abbrev pub status_not_found : Thrown
status_not_found = app (record {
  message = "Booking status not found";
  status_code = 404;
  code = "BOOKING_STATUS_NOT_FOUND";
})

abbrev pub status_name_taken : Thrown
status_name_taken = app (record {
  message = "Booking status name already exists";
  status_code = 409;
  code = "BOOKING_STATUS_NAME_TAKEN";
})

-- `BookingStatusCreateInput`
pub record StatusInput : Type 0 where
  pub name : String
  pub description : Option String
  pub is_default : Option Bool
  pub is_active : Option Bool
  pub sort_order : Option ℕ

-- `BookingStatusUpdateInput`: a field left out is `none`; a description may be set to null.
pub record StatusUpdateInput : Type 0 where
  pub name : Option String
  pub description : Option (Option String)
  pub is_default : Option Bool
  pub is_active : Option Bool
  pub sort_order : Option ℕ

-- `where: { orgId, isDefault: true }`
abbrev pub is_default_of : String → BookingStatus → Bool
is_default_of org_id r = str_eq r.org_id org_id && r.is_default

abbrev pub clear_default : BookingStatus → BookingStatus
clear_default r = record r { is_default = false }

unfoldable pub new_status : Env → String → StatusInput → BookingStatus
new_status env org_id input = record {
  id = env.new_id;
  org_id = org_id;
  name = input.name;
  description = input.description;
  is_default = or_else input.is_default false;
  is_active = or_else input.is_active true;
  sort_order = or_else input.sort_order 0;
  created_at = env.now;
}

-- `data` of `updateBookingStatus`
unfoldable pub update_status_fields : StatusUpdateInput → BookingStatus → BookingStatus
update_status_fields input r = record r {
  name = or_else input.name r.name;
  description = or_else input.description r.description;
  is_default = or_else input.is_default r.is_default;
  is_active = or_else input.is_active r.is_active;
  sort_order = or_else input.sort_order r.sort_order;
}

module _ (p : Database) where
  unfoldable pub list_booking_statuses : String → Bool → M (Store p) (List BookingStatus)
  list_booking_statuses org_id include_inactive = gets λ s.
      p.find_many (ascending_then (λ r. r.sort_order) (λ r. r.created_at))
        (λ r. str_eq r.org_id org_id && (if include_inactive then true else r.is_active)) s.statuses

  -- `if (input.isDefault) updateMany(…)`
  unfoldable pub clear_defaults : Bool → (BookingStatus → Bool) → M (Store p) (Unit {0})
  clear_defaults false w s = (ok tt, s)
  clear_defaults true w s =
      (ok tt, record s { statuses = (p.update_many w clear_default s.statuses).0 })

  unfoldable pub create_booking_status : Env → String → StatusInput → M (Store p) BookingStatus
  create_booking_status env org_id input = do
    λ s. catch_unique "name" status_name_taken (
        transaction
          (do
            clear_defaults (or_else input.is_default false) (is_default_of org_id)
            λ t.
                commit t (λ u. record t { statuses = u })
                  (p.create status_unique (new_status env org_id input) t.statuses))
          s)
    return (new_status env org_id input)

  unfoldable pub update_booking_status :
      String → String → StatusUpdateInput → M (Store p) (Option BookingStatus)
  update_booking_status org_id id input = do
    existing ←
        gets λ s. p.find_first unordered (λ r. str_eq r.id id && str_eq r.org_id org_id) s.statuses
    require existing status_not_found
    λ s. catch_unique "name" status_name_taken (
        transaction
          (do
            clear_defaults (or_else input.is_default false)
                (λ r. is_default_of org_id r && not (str_eq r.id id))
            λ t.
                commit t (λ u. record t { statuses = u })
                  (p.update status_name_unique (λ r. str_eq r.id id) (update_status_fields input)
                    t.statuses))
          s)
    gets λ s. p.find_first unordered (λ r. str_eq r.id id) s.statuses
