-- ===== src/WorkOrders/Filters.antt =====
-- The filters of a list of work orders: statuses and a day. modules/work-orders/workOrders.service.ts
use fsm_backend.Prelude.{
  ℕ, ◌+◌, String, Bool, true, false, ◌||◌, ◌∷◌, [], List, Option, none, some, str_eq, truthy, trim,
  split_commas, is_empty, if◌then◌else◌,
}
use fsm_backend.Errors.{Thrown, app, Result, ok, err}
use fsm_backend.WorkOrders.Types.{
  WorkOrderStatus, draft, scheduled, in_progress, completed, cancelled,
}

abbrev pub invalid_status : Thrown
invalid_status =
    app (record { message = "Invalid status"; status_code = 400; code = "INVALID_STATUS" })

abbrev pub invalid_date : Thrown
invalid_date = app (record { message = "Invalid date"; status_code = 400; code = "INVALID_DATE" })

-- The members of the enum as texts, and the member that a text is.
abbrev pub status_text : WorkOrderStatus → String
status_text draft = "DRAFT"
status_text scheduled = "SCHEDULED"
status_text in_progress = "IN_PROGRESS"
status_text completed = "COMPLETED"
status_text cancelled = "CANCELLED"

unfoldable pub read_status : String → Option WorkOrderStatus
read_status p =
    if str_eq p "DRAFT"
    then some draft
    else if str_eq p "SCHEDULED"
    then some scheduled
    else if str_eq p "IN_PROGRESS"
    then some in_progress
    else if str_eq p "COMPLETED"
    then some completed
    else if str_eq p "CANCELLED"
    then some cancelled
    else none

abbrev pub same_status : WorkOrderStatus → WorkOrderStatus → Bool
same_status draft draft = true
same_status scheduled scheduled = true
same_status in_progress in_progress = true
same_status completed completed = true
same_status cancelled cancelled = true
same_status _ _ = false

-- The parts between commas, trimmed, without the empty ones.
abbrev pub keep_part : String → List String → List String
keep_part part parts = if is_empty part then parts else part ∷ parts

unfoldable pub nonempty_parts : List String → List String
nonempty_parts [] = []
nonempty_parts (part ∷ parts) = keep_part (trim part) (nonempty_parts parts)

-- All the parts as members of the enum, or the error if one of them is none.
abbrev pub add_status :
    Option WorkOrderStatus → Result (List WorkOrderStatus) → Result (List WorkOrderStatus)
add_status none rest = err invalid_status
add_status (some s) (ok ss) = ok (s ∷ ss)
add_status (some s) (err e) = err e

unfoldable pub read_statuses : List String → Result (List WorkOrderStatus)
read_statuses [] = ok []
read_statuses (part ∷ parts) = add_status (read_status part) (read_statuses parts)

abbrev pub has_status : WorkOrderStatus → List WorkOrderStatus → Bool
has_status s [] = false
has_status s (t ∷ ts) = same_status t s || has_status s ts

-- The filter with the set `seen`. The members' texts are in capitals, so `toUpperCase` does nothing.
unfoldable pub unseen : List WorkOrderStatus → List WorkOrderStatus → List WorkOrderStatus
unseen seen [] = []
unseen seen (s ∷ ss) =
    let new = unseen (s ∷ seen) ss in
    let old = unseen seen ss in if has_status s seen then old else s ∷ new

abbrev pub deduplicated : Result (List WorkOrderStatus) → Result (Option (List WorkOrderStatus))
deduplicated (ok ss) = ok (some (unseen [] ss))
deduplicated (err e) = err e

abbrev pub parse_parts : List String → Result (Option (List WorkOrderStatus))
parse_parts [] = ok none
parse_parts (part ∷ parts) = deduplicated (read_statuses (part ∷ parts))

abbrev pub parse_given : Option String → Result (Option (List WorkOrderStatus))
parse_given none = ok none
parse_given (some status) = parse_parts (nonempty_parts (split_commas status))

unfoldable pub parse_statuses : Option String → Result (Option (List WorkOrderStatus))
parse_statuses status = parse_given (truthy status)

pub record DateRange : Type 0 where
  pub gte : ℕ
  pub lt : ℕ

-- What the runtime does with dates, on times as numbers of milliseconds: `new Date(text)`, none for
-- an invalid date; `getUTCFullYear`, `getUTCMonth`, `getUTCDate`; `Date.UTC(year, month, date)`; and
-- `setUTCDate`.
pub record Dates : Type 0 where
  pub parse_date : String → Option ℕ
  pub full_year : ℕ → ℕ
  pub month : ℕ → ℕ
  pub date : ℕ → ℕ
  pub utc : ℕ → ℕ → ℕ → ℕ
  pub set_date : ℕ → ℕ → ℕ

unfoldable pub day_of : Dates → ℕ → DateRange
day_of x parsed =
    let start = x.utc (x.full_year parsed) (x.month parsed) (x.date parsed) in
    record { gte = start; lt = x.set_date start (x.date start + 1) }

abbrev pub range_of : Dates → Option ℕ → Result (Option DateRange)
range_of x none = err invalid_date
range_of x (some parsed) = ok (some (day_of x parsed))

abbrev pub range_given : Dates → Option String → Result (Option DateRange)
range_given x none = ok none
range_given x (some date) = range_of x (x.parse_date date)

unfoldable pub build_date_range : Dates → Option String → Result (Option DateRange)
build_date_range x date = range_given x (truthy date)
