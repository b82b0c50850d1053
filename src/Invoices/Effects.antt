-- ===== src/Invoices/Effects.antt =====
-- Which tables each handler leaves alone.
use fsm_backend.Prelude.{String, ◌≡◌, List, arith}
use fsm_backend.Prisma.{Database}
use fsm_backend.Invoices.Types.{Store, Env, LineInput, LineUpdateInput}
use fsm_backend.Invoices.Service.{
  ensure_invoice, ensure_work_orders_for_customer, get_invoice, create_line_row,
}
use fsm_backend.Invoices.Edit.{
  add_invoice_work_orders, remove_invoice_work_order, create_invoice_line, update_invoice_line,
  delete_invoice_line, write_line,
}

module _ (p : Database) (env : Env) (org_id id : String) (s : Store p) where
  pub invoices-create_line :
      (input : LineInput) → (create_invoice_line p env org_id id input s).1.invoices ≡ s.invoices
  unfolding create_invoice_line ensure_invoice create_line_row
  invoices-create_line input = ground arith

  pub invoices-delete_line :
      (line_id : String) → (delete_invoice_line p org_id id line_id s).1.invoices ≡ s.invoices
  unfolding delete_invoice_line ensure_invoice
  invoices-delete_line line_id = ground arith

  pub invoices-update_line :
      (line_id : String) (input : LineUpdateInput)
      → (update_invoice_line p org_id id line_id input s).1.invoices ≡ s.invoices
  unfolding update_invoice_line ensure_invoice write_line
  invoices-update_line line_id input = ground arith

  pub invoices-remove_work_order :
      (w : String) → (remove_invoice_work_order p org_id id w s).1.invoices ≡ s.invoices
  unfolding remove_invoice_work_order ensure_invoice get_invoice
  invoices-remove_work_order w = ground arith

  pub invoices-add_work_orders :
      (ws : List String) → (add_invoice_work_orders p env org_id id ws s).1.invoices ≡ s.invoices
  unfolding add_invoice_work_orders ensure_invoice ensure_work_orders_for_customer get_invoice
  invoices-add_work_orders ws = ground arith
