-- ===== src/WorkOrders/Types.antt =====
-- The tables of work orders and of the templates of their tasks. prisma/schema.prisma,
-- modules/work-orders/dto/workOrders.dto.ts
use fsm_backend.Prelude.{ℕ, String, Option}
use fsm_backend.Prisma.{Database}

pub data WorkOrderStatus : Type 0 where
  draft scheduled in_progress completed cancelled : WorkOrderStatus

pub data WorkOrderPriority : Type 0 where
  low normal high urgent : WorkOrderPriority

pub data TaskStatus : Type 0 where
  todo done skipped : TaskStatus

pub record Customer : Type 0 where
  pub id : String
  pub name : String

pub record ServiceLocation : Type 0 where
  pub id : String
  pub label : Option String
  pub address_line1 : String
  pub address_line2 : Option String
  pub city : String
  pub province : Option String
  pub postal_code : Option String
  pub country : Option String

pub record Technician : Type 0 where
  pub id : String
  pub display_name : String

pub record User : Type 0 where
  pub id : String
  pub email : String

pub record WorkOrder : Type 0 where
  pub id : String
  pub org_id : Option String
  pub customer_id : String
  pub service_location_id : String
  pub assigned_technician_id : Option String
  pub status : WorkOrderStatus
  pub priority : WorkOrderPriority
  pub summary : String
  pub description : Option String
  pub scheduled_start : Option ℕ
  pub scheduled_end : Option ℕ
  pub actual_start : Option ℕ
  pub actual_end : Option ℕ

pub record WorkOrderIncident : Type 0 where
  pub id : String
  pub org_id : Option String
  pub work_order_id : String
  pub template_id : Option String
  pub title : String
  pub description : Option String
  pub sort_order : ℕ
  pub created_at : ℕ

pub record WorkOrderTask : Type 0 where
  pub id : String
  pub org_id : Option String
  pub incident_id : String
  pub title : String
  pub description : Option String
  pub status : TaskStatus
  pub sort_order : ℕ
  pub completed_at : Option ℕ
  pub created_at : ℕ

pub record WorkNote : Type 0 where
  pub id : String
  pub org_id : Option String
  pub work_order_id : String
  pub author_user_id : String
  pub body : String
  pub created_at : ℕ

pub record WorkOrderLineItem : Type 0 where
  pub id : String
  pub org_id : Option String
  pub work_order_id : String
  pub description : String
  pub quantity : ℕ
  pub unit_price_cents : ℕ
  pub created_at : ℕ

pub record WorkTemplate : Type 0 where
  pub id : String
  pub org_id : String
  pub name : String
  pub description : Option String

pub record TemplateTask : Type 0 where
  pub id : String
  pub template_id : String
  pub title : String
  pub description : Option String
  pub sort_order : ℕ
  pub created_at : ℕ

pub record Store (p : Database) : Type 0 where
  pub work_orders : p.Table WorkOrder
  pub customers : p.Table Customer
  pub locations : p.Table ServiceLocation
  pub technicians : p.Table Technician
  pub users : p.Table User
  pub incidents : p.Table WorkOrderIncident
  pub tasks : p.Table WorkOrderTask
  pub notes : p.Table WorkNote
  pub line_items : p.Table WorkOrderLineItem
  pub templates : p.Table WorkTemplate
  pub template_tasks : p.Table TemplateTask

-- The clock, and the ids that the database generates for the rows of one request.
pub record Env : Type 0 where
  pub now : ℕ
  pub new_id : String
  pub task_id : ℕ → String

-- `WorkOrdersListQuery`
pub record ListQuery : Type 0 where
  pub date : Option String
  pub status : Option String
  pub technician_id : Option String
  pub page : ℕ
  pub page_size : ℕ

-- `WorkOrderIncidentCreateInput`
pub record IncidentInput : Type 0 where
  pub template_id : Option String
  pub title : Option String
  pub description : Option String
  pub sort_order : Option ℕ

-- `WorkOrderLineItemCreateInput` and `WorkOrderLineItemUpdateInput`
pub record LineItemInput : Type 0 where
  pub description : String
  pub quantity : ℕ
  pub unit_price_cents : ℕ

pub record LineItemUpdateInput : Type 0 where
  pub description : Option String
  pub quantity : Option ℕ
  pub unit_price_cents : Option ℕ
