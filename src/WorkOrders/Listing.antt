-- ===== src/WorkOrders/Listing.antt =====
-- Lists and details of work orders. modules/work-orders/workOrders.service.ts
use fsm_backend.Prelude.{
  ℕ, ◌-◌, ◌*◌, String, Bool, true, false, ◌&&◌, Option, none, some, List, map, opt_eq, str_eq,
  truthy, ltb, leb,
}
use fsm_backend.Errors.{Result, M, ◌>>=◌, require, gets}
use fsm_backend.Prisma.{Database, unordered, ascending, ascending_null_then, find_page, count_rows}
use fsm_backend.WorkOrders.Types.{
  WorkOrderStatus, WorkOrderPriority, Customer, ServiceLocation, Technician, WorkOrder,
  WorkOrderLineItem, Store, ListQuery,
}
use fsm_backend.WorkOrders.Filters.{Dates, DateRange, has_status, parse_statuses, build_date_range}
use fsm_backend.WorkOrders.Service.{work_order_not_found, NoteDetail, note_detail}

-- The related rows, with all their columns, are read through the foreign keys.
pub record WorkOrderListItem : Type 0 where
  pub id : String
  pub summary : String
  pub status : WorkOrderStatus
  pub priority : WorkOrderPriority
  pub scheduled_start : Option ℕ
  pub scheduled_end : Option ℕ
  pub customer : Option Customer
  pub location : Option ServiceLocation
  pub assigned_technician : Option Technician

pub record WorkOrderPage : Type 0 where
  pub items : List WorkOrderListItem
  pub page : ℕ
  pub page_size : ℕ
  pub total : ℕ

pub record WorkOrderDetail : Type 0 where
  pub work_order : WorkOrder
  pub customer : Option Customer
  pub location : Option ServiceLocation
  pub assigned_technician : Option Technician
  pub notes : List NoteDetail
  pub line_items : List WorkOrderLineItem

-- The `where` clause: each filter that is given.
abbrev pub status_matches : Option (List WorkOrderStatus) → WorkOrder → Bool
status_matches none w = true
status_matches (some ss) w = has_status w.status ss

abbrev pub technician_matches : Option String → WorkOrder → Bool
technician_matches none w = true
technician_matches (some id) w = opt_eq w.assigned_technician_id (some id)

abbrev pub starts_within : DateRange → Option ℕ → Bool
starts_within range none = false
starts_within range (some t) = leb range.gte t && ltb t range.lt

abbrev pub date_matches : Option DateRange → WorkOrder → Bool
date_matches none w = true
date_matches (some range) w = starts_within range w.scheduled_start

abbrev pub matches :
    Option (List WorkOrderStatus) → Option String → Option DateRange → WorkOrder → Bool
matches statuses technician_id range w =
    status_matches statuses w && technician_matches technician_id w && date_matches range w

module _ (p : Database) where
  abbrev pub technician_of : Store p → Option String → Option Technician
  technician_of s none = none
  technician_of s (some id) = p.find_first unordered (λ t. str_eq t.id id) s.technicians

  unfoldable pub list_item : Store p → WorkOrder → WorkOrderListItem
  list_item s w = record {
    id = w.id;
    summary = w.summary;
    status = w.status;
    priority = w.priority;
    scheduled_start = w.scheduled_start;
    scheduled_end = w.scheduled_end;
    customer = p.find_first unordered (λ c. str_eq c.id w.customer_id) s.customers;
    location = p.find_first unordered (λ l. str_eq l.id w.service_location_id) s.locations;
    assigned_technician = technician_of s w.assigned_technician_id;
  }

  -- `orderBy: { scheduledStart: "asc" }`, `skip: (page - 1) * pageSize`; a page is at least 1. Rows
  -- with the same start have no fixed order: `ties` is the one in which this query returns them.
  unfoldable pub page_of : (WorkOrder → Bool) → (WorkOrder → ℕ) → ℕ → ℕ → Store p → WorkOrderPage
  page_of w ties page page_size s = record {
    items = map (list_item s) (
        find_page p (ascending_null_then (λ (o : WorkOrder). o.scheduled_start) ties) w
          ((page - 1) * page_size) page_size s.work_orders);
    page = page;
    page_size = page_size;
    total = count_rows p w s.work_orders;
  }

  abbrev pub lift : {A : Type 0} → Result A → M (Store p) A
  lift r s = (r, s)

  unfoldable pub list_work_orders : Dates → (WorkOrder → ℕ) → ListQuery → M (Store p) WorkOrderPage
  list_work_orders dates ties query = do
    statuses ← lift (parse_statuses query.status)
    range ← lift (build_date_range dates query.date)
    gets λ s.
        page_of (matches statuses (truthy query.technician_id) range) ties query.page
          query.page_size s

  unfoldable pub detail_of : Store p → WorkOrder → WorkOrderDetail
  detail_of s w = record {
    work_order = w;
    customer = p.find_first unordered (λ c. str_eq c.id w.customer_id) s.customers;
    location = p.find_first unordered (λ l. str_eq l.id w.service_location_id) s.locations;
    assigned_technician = technician_of s w.assigned_technician_id;
    notes =
        map (note_detail p s)
          (p.find_many (ascending (λ n. n.created_at)) (λ n. str_eq n.work_order_id w.id) s.notes);
    line_items =
        p.find_many (ascending (λ l. l.created_at)) (λ l. str_eq l.work_order_id w.id) s.line_items;
  }

  unfoldable pub get_work_order_detail : String → M (Store p) WorkOrderDetail
  get_work_order_detail id = do
    found ← gets λ s. p.find_first unordered (λ w. str_eq w.id id) s.work_orders
    w ← require found work_order_not_found
    gets λ s. detail_of s w
