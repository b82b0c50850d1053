-- ===== src/Invoices/Edit.antt =====
-- Changing invoices. modules/invoices/invoices.service.ts
use fsm_backend.Prelude.{String, not, Option, List, [], str_eq, ◌==◌}
use mathlib.Core.Option
use fsm_backend.Errors.{
  M, ◌>>=◌, ◌>>◌, Result, ok, err, prisma, p2025, return, require, guard, gets, commit,
}
use fsm_backend.Prisma.{Database, unordered}
use fsm_backend.Invoices.Types.{
  InvoiceStatus, InvoiceLine, link_unique, Store, Env, LineInput, LineUpdateInput, LineDetail,
  InvoiceDetail,
}
use fsm_backend.Invoices.Rules.{
  invoice_line_not_found, invoice_work_order_not_found, invalid_transition, stamp_status, is_line,
  is_link, map_line_input, make_links, line_detail, update_line_fields, permits,
}
use fsm_backend.Invoices.Service.{
  ensure_invoice, ensure_draft, ensure_work_orders_for_customer, get_invoice, shape_invoice,
  create_line_row,
}

-- The `catch` of `updateInvoiceLine`: a record that is gone is reported as not found.
abbrev pub line_gone : {A S : Type 0} → Result A × S → Result A × S
line_gone (ok a, s) = (ok a, s)
line_gone (err (prisma p2025), s) = (err invoice_line_not_found, s)
line_gone (err e, s) = (err e, s)

module _ (p : Database) where
  unfoldable pub add_invoice_work_orders :
      Env → String → String → List String → M (Store p) InvoiceDetail
  add_invoice_work_orders env org_id invoice_id work_order_ids = do
    invoice ← ensure_invoice p org_id invoice_id
    ensure_draft p invoice.status
    ensure_work_orders_for_customer p org_id invoice.customer_id work_order_ids
    let new = make_links env org_id invoice_id 0 work_order_ids
    λ s. (ok tt, record s { links = p.create_many link_unique new s.links })
    get_invoice p org_id invoice_id

  unfoldable pub remove_invoice_work_order : String → String → String → M (Store p) InvoiceDetail
  remove_invoice_work_order org_id invoice_id work_order_id = do
    invoice ← ensure_invoice p org_id invoice_id
    ensure_draft p invoice.status
    removed ← λ s.
        let (t, n) = p.delete_many (is_link org_id invoice_id work_order_id) s.links in
        (ok n, record s { links = t })
    guard (not (removed == 0)) invoice_work_order_not_found
    get_invoice p org_id invoice_id

  unfoldable pub create_invoice_line : Env → String → String → LineInput → M (Store p) LineDetail
  create_invoice_line env org_id invoice_id input = do
    invoice ← ensure_invoice p org_id invoice_id
    ensure_draft p invoice.status
    let line = map_line_input env org_id invoice_id 0 input
    create_line_row p line
    return (line_detail line)

  -- `update` of the line, and the row as written.
  unfoldable pub write_line : String → LineUpdateInput → M (Store p) (Option InvoiceLine)
  write_line line_id input = do
    λ s.
        commit s (λ t. record s { lines = t })
          (p.update [] (λ r. str_eq r.id line_id) (update_line_fields input) s.lines)
    gets λ s. p.find_first unordered (λ r. str_eq r.id line_id) s.lines

  unfoldable pub update_invoice_line :
      String → String → String → LineUpdateInput → M (Store p) (Option InvoiceLine)
  update_invoice_line org_id invoice_id line_id input = do
    invoice ← ensure_invoice p org_id invoice_id
    ensure_draft p invoice.status
    existing ← gets λ s. p.find_first unordered (is_line org_id invoice_id line_id) s.lines
    require existing invoice_line_not_found
    λ s. line_gone (write_line line_id input s)

  unfoldable pub delete_invoice_line : String → String → String → M (Store p) (Unit {0})
  delete_invoice_line org_id invoice_id line_id = do
    invoice ← ensure_invoice p org_id invoice_id
    ensure_draft p invoice.status
    removed ← λ s.
        let (t, n) = p.delete_many (is_line org_id invoice_id line_id) s.lines in
        (ok n, record s { lines = t })
    guard (not (removed == 0)) invoice_line_not_found

  unfoldable pub update_invoice_status :
      Env → String → String → InvoiceStatus → M (Store p) (Option InvoiceDetail)
  update_invoice_status env org_id invoice_id status = do
    invoice ← ensure_invoice p org_id invoice_id
    guard (permits invoice.status status) invalid_transition
    λ s.
        commit s (λ t. record s { invoices = t })
          (p.update [] (λ r. str_eq r.id invoice_id) (stamp_status status env.now) s.invoices)
    gets λ s.
        Option.map (shape_invoice p s)
          (p.find_first unordered (λ r. str_eq r.id invoice_id) s.invoices)
