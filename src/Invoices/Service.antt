-- ===== src/Invoices/Service.antt =====
-- Reading and creating invoices. modules/invoices/invoices.service.ts
use fsm_backend.Prelude.{
  ℕ, suc, String, not, ◌&&◌, some, List, [], ◌∷◌, map, length, or_else, opt_eq, str_eq, elem,
  distinct, any, ◌==◌, if◌then◌else◌,
}
use fsm_backend.Errors.{M, ◌>>=◌, ◌>>◌, return, require, guard, transaction, gets, commit}
use fsm_backend.Prisma.{Database, unordered, ascending}
use fsm_backend.Invoices.Types.{
  InvoiceStatus, Customer, WorkOrder, Invoice, InvoiceWorkOrder, InvoiceLine, invoice_unique,
  line_unique, link_unique, Store, Env, LineInput, InvoiceInput, LinkDetail, InvoiceDetail,
}
use fsm_backend.Invoices.Rules.{
  invoice_not_found, invoice_not_draft, customer_not_found, work_order_not_found,
  work_order_customer_mismatch, is_draft, is_invoice, new_invoice, map_line_input, make_links,
  line_detail,
}

module _ (p : Database) where
  unfoldable pub ensure_customer : String → String → M (Store p) Customer
  ensure_customer org_id customer_id = do
    customer ← gets λ s.
        p.find_first unordered (λ r. str_eq r.id customer_id && opt_eq r.org_id (some org_id))
          s.customers
    require customer customer_not_found

  unfoldable pub ensure_invoice : String → String → M (Store p) Invoice
  ensure_invoice org_id invoice_id = do
    invoice ← gets λ s. p.find_first unordered (is_invoice org_id invoice_id) s.invoices
    require invoice invoice_not_found

  abbrev pub ensure_draft : InvoiceStatus → M (Store p) (Unit {0})
  ensure_draft status = guard (is_draft status) invoice_not_draft

  unfoldable pub check_work_orders :
      String → List String → List WorkOrder → M (Store p) (List WorkOrder)
  check_work_orders customer_id unique_ids found = do
    guard (length found == length unique_ids) work_order_not_found
    guard (not (any (λ w. not (str_eq w.customer_id customer_id)) found))
        work_order_customer_mismatch
    return found

  unfoldable pub ensure_work_orders_for_customer :
      String → String → List String → M (Store p) (List WorkOrder)
  unfolding check_work_orders
  ensure_work_orders_for_customer org_id customer_id work_order_ids =
      let unique_ids = distinct work_order_ids in
      if length unique_ids == 0 then return [] else do
        work_orders ← gets λ s.
            p.find_many unordered (λ r. elem r.id unique_ids && opt_eq r.org_id (some org_id))
              s.work_orders
        check_work_orders customer_id unique_ids work_orders

  link_detail : Store p → InvoiceWorkOrder → LinkDetail
  link_detail s l = record {
    id = l.id;
    work_order = p.find_first unordered (λ w. str_eq w.id l.work_order_id) s.work_orders;
  }

  -- `invoiceSelect` and `shapeInvoice`
  unfoldable pub shape_invoice : Store p → Invoice → InvoiceDetail
  unfolding link_detail
  shape_invoice s i = record {
    id = i.id;
    status = i.status;
    customer = p.find_first unordered (λ c. str_eq c.id i.customer_id) s.customers;
    due_date = i.due_date;
    memo = i.memo;
    issued_at = i.issued_at;
    paid_at = i.paid_at;
    voided_at = i.voided_at;
    work_orders =
        map (link_detail s)
          (p.find_many (ascending (λ l. l.created_at)) (λ l. str_eq l.invoice_id i.id) s.links);
    lines =
        map line_detail
          (p.find_many (ascending (λ l. l.created_at)) (λ l. str_eq l.invoice_id i.id) s.lines);
    created_at = i.created_at;
  }

  unfoldable pub get_invoice : String → String → M (Store p) InvoiceDetail
  get_invoice org_id id = do
    invoice ← gets λ s. p.find_first unordered (is_invoice org_id id) s.invoices
    found ← require invoice invoice_not_found
    gets λ s. shape_invoice s found

  -- The single writes.
  unfoldable pub create_invoice_row : Invoice → M (Store p) (Unit {0})
  create_invoice_row r s =
      commit s (λ t. record s { invoices = t }) (p.create invoice_unique r s.invoices)

  unfoldable pub create_line_row : InvoiceLine → M (Store p) (Unit {0})
  create_line_row r s = commit s (λ t. record s { lines = t }) (p.create line_unique r s.lines)

  unfoldable pub create_link_row : InvoiceWorkOrder → M (Store p) (Unit {0})
  create_link_row r s = commit s (λ t. record s { links = t }) (p.create link_unique r s.links)

  -- The rows of a nested `create`.
  unfoldable pub create_lines : Env → String → ℕ → List LineInput → M (Store p) (Unit {0})
  create_lines env org_id n [] = return tt
  create_lines env org_id n (l ∷ ls) = do
    create_line_row (map_line_input env org_id env.new_id n l)
    create_lines env org_id (suc n) ls

  unfoldable pub create_links : List InvoiceWorkOrder → M (Store p) (Unit {0})
  create_links [] = return tt
  create_links (l ∷ ls) = do create_link_row l; create_links ls

  -- The nested `create`: the invoice, its lines and its links.
  unfoldable pub create_rows : Env → String → InvoiceInput → M (Store p) (Unit {0})
  create_rows env org_id input = do
    create_invoice_row (new_invoice env org_id input)
    create_lines env org_id 0 (or_else input.lines [])
    create_links (make_links env org_id env.new_id 0 (or_else input.work_order_ids []))

  unfoldable pub create_invoice : Env → String → InvoiceInput → M (Store p) InvoiceDetail
  create_invoice env org_id input = do
    ensure_customer org_id input.customer_id
    let work_order_ids = or_else input.work_order_ids []
    ensure_work_orders_for_customer org_id input.customer_id work_order_ids
    transaction (create_rows env org_id input)
    gets λ s. shape_invoice s (new_invoice env org_id input)
