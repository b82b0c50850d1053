-- ===== src/Invoices/Types.antt =====
-- The tables that the invoice service works on, and its inputs.
-- prisma/schema.prisma, modules/invoices/dto/invoices.dto.ts
use fsm_backend.Prelude.{ℕ, String, Option, List, [], ◌∷◌, ◌&&◌, str_eq}
use fsm_backend.Prisma.{Unique, Database}

pub data InvoiceStatus : Type 0 where
  draft issued paid void : InvoiceStatus

pub record Customer : Type 0 where
  pub id : String
  pub org_id : Option String
  pub name : String

pub record WorkOrder : Type 0 where
  pub id : String
  pub org_id : Option String
  pub customer_id : String
  pub summary : String

pub record Invoice : Type 0 where
  pub id : String
  pub org_id : String
  pub customer_id : String
  pub status : InvoiceStatus
  pub due_date : Option ℕ
  pub memo : Option String
  pub issued_at : Option ℕ
  pub paid_at : Option ℕ
  pub voided_at : Option ℕ
  pub created_at : ℕ

pub record InvoiceWorkOrder : Type 0 where
  pub id : String
  pub org_id : String
  pub invoice_id : String
  pub work_order_id : String
  pub created_at : ℕ

pub record InvoiceLine : Type 0 where
  pub id : String
  pub org_id : String
  pub invoice_id : String
  pub description : String
  pub quantity : ℕ
  pub unit_price_cents : Option ℕ
  pub created_at : ℕ

-- `@id` of each table, and `@@unique([orgId, invoiceId, workOrderId])`.
abbrev pub invoice_unique : List (Unique Invoice)
invoice_unique = record { target = "id" ∷ []; clash = λ a b. str_eq a.id b.id } ∷ []

abbrev pub line_unique : List (Unique InvoiceLine)
line_unique = record { target = "id" ∷ []; clash = λ a b. str_eq a.id b.id } ∷ []

abbrev pub link_unique : List (Unique InvoiceWorkOrder)
link_unique =
    record { target = "id" ∷ []; clash = λ a b. str_eq a.id b.id }
    ∷ record {
      target = "orgId" ∷ "invoiceId" ∷ "workOrderId" ∷ [];
      clash = λ a b.
          str_eq a.org_id b.org_id
          && str_eq a.invoice_id b.invoice_id
          && str_eq a.work_order_id b.work_order_id;
    }
    ∷ []

pub record Store (p : Database) : Type 0 where
  pub customers : p.Table Customer
  pub work_orders : p.Table WorkOrder
  pub invoices : p.Table Invoice
  pub links : p.Table InvoiceWorkOrder
  pub lines : p.Table InvoiceLine

-- What a request takes from the clock and from the database's `cuid()`: the time, the id of the
-- row or of the invoice that it creates, and those of the rows created along with it.
pub record Env : Type 0 where
  pub now : ℕ
  pub new_id : String
  pub line_id : ℕ → String
  pub link_id : ℕ → String

-- `InvoiceLineInput`; the service gives a quantity of 1 where it is missing.
pub record LineInput : Type 0 where
  pub description : String
  pub quantity : Option ℕ
  pub unit_price_cents : Option ℕ

-- `InvoiceLineUpdateInput`: a field left out is `none`; a price may be set to null.
pub record LineUpdateInput : Type 0 where
  pub description : Option String
  pub quantity : Option ℕ
  pub unit_price_cents : Option (Option ℕ)

-- `InvoiceCreateInput`, its due date read by `new Date` already.
pub record InvoiceInput : Type 0 where
  pub customer_id : String
  pub due_date : Option ℕ
  pub memo : Option String
  pub work_order_ids : Option (List String)
  pub lines : Option (List LineInput)

pub record LineDetail : Type 0 where
  pub id : String
  pub description : String
  pub quantity : ℕ
  pub unit_price_cents : Option ℕ

-- The work order of a link is read through its foreign key.
pub record LinkDetail : Type 0 where
  pub id : String
  pub work_order : Option WorkOrder

pub record InvoiceDetail : Type 0 where
  pub id : String
  pub status : InvoiceStatus
  pub customer : Option Customer
  pub due_date : Option ℕ
  pub memo : Option String
  pub issued_at : Option ℕ
  pub paid_at : Option ℕ
  pub voided_at : Option ℕ
  pub work_orders : List LinkDetail
  pub lines : List LineDetail
  pub created_at : ℕ
