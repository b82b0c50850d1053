-- ===== src/Invoices/Requests.antt =====
-- The requests that change invoices, as one step of the store. modules/invoices/invoices.routes.ts
use fsm_backend.Prelude.{String, List}
use fsm_backend.Prisma.{Database}
use fsm_backend.Invoices.Types.{InvoiceStatus, Store, Env, LineInput, LineUpdateInput, InvoiceInput}
use fsm_backend.Invoices.Service.{create_invoice}
use fsm_backend.Invoices.Edit.{
  add_invoice_work_orders, remove_invoice_work_order, create_invoice_line, update_invoice_line,
  delete_invoice_line, update_invoice_status,
}

pub data Request : Type 0 where
  create : InvoiceInput → Request
  add_work_orders : String → List String → Request
  remove_work_order : String → String → Request
  create_line : String → LineInput → Request
  update_line : String → String → LineUpdateInput → Request
  delete_line : String → String → Request
  update_status : String → InvoiceStatus → Request

-- The store after a request of an organization, whether it succeeds or throws.
unfoldable pub after : (p : Database) → Env → String → Request → Store p → Store p
after p env org_id (create input) s = (create_invoice p env org_id input s).1
after p env org_id (add_work_orders id ws) s = (add_invoice_work_orders p env org_id id ws s).1
after p env org_id (remove_work_order id w) s = (remove_invoice_work_order p org_id id w s).1
after p env org_id (create_line id input) s = (create_invoice_line p env org_id id input s).1
after p env org_id (update_line id l input) s = (update_invoice_line p org_id id l input s).1
after p env org_id (delete_line id l) s = (delete_invoice_line p org_id id l s).1
after p env org_id (update_status id status) s = (update_invoice_status p env org_id id status s).1

-- Every store that requests can lead to.
pub data Reach (p : Database) (s : Store p) : Store p → Type 0 where
  here : Reach p s s
  next :
      {t : Store p} (env : Env) (org_id : String) (q : Request)
      → Reach p s t
      → Reach p s (after p env org_id q t)
