-- ===== src/Invoices/Rules.antt =====
-- The errors of the invoice service, its status transitions, and the rows that it selects and makes.
-- modules/invoices/invoices.service.ts
use fsm_backend.Prelude.{
  ℕ, suc, String, Bool, true, false, ◌&&◌, ◌||◌, none, some, List, [], ◌∷◌, or_else, str_eq,
}
use fsm_backend.Errors.{Thrown, app}
use fsm_backend.Invoices.Types.{
  InvoiceStatus, draft, issued, paid, void, Invoice, InvoiceWorkOrder, InvoiceLine, Env, LineInput,
  InvoiceInput, LineUpdateInput, LineDetail,
}

abbrev pub invoice_not_found : Thrown
invoice_not_found =
    app (record { message = "Invoice not found"; status_code = 404; code = "INVOICE_NOT_FOUND" })

abbrev pub invoice_not_draft : Thrown
invoice_not_draft =
    app (record {
      message = "Invoice must be in draft";
      status_code = 409;
      code = "INVOICE_NOT_DRAFT";
    })

abbrev pub customer_not_found : Thrown
customer_not_found =
    app (record { message = "Customer not found"; status_code = 404; code = "CUSTOMER_NOT_FOUND" })

abbrev pub work_order_not_found : Thrown
work_order_not_found =
    app (record {
      message = "Work order not found";
      status_code = 404;
      code = "WORK_ORDER_NOT_FOUND";
    })

abbrev pub work_order_customer_mismatch : Thrown
work_order_customer_mismatch = app (record {
  message = "Work order belongs to different customer";
  status_code = 400;
  code = "INVOICE_WORK_ORDER_CUSTOMER_MISMATCH";
})

abbrev pub invoice_line_not_found : Thrown
invoice_line_not_found = app (record {
  message = "Invoice line not found";
  status_code = 404;
  code = "INVOICE_LINE_NOT_FOUND";
})

abbrev pub invoice_work_order_not_found : Thrown
invoice_work_order_not_found = app (record {
  message = "Invoice work order not found";
  status_code = 404;
  code = "INVOICE_WORK_ORDER_NOT_FOUND";
})

abbrev pub invalid_transition : Thrown
invalid_transition = app (record {
  message = "Invalid invoice status transition";
  status_code = 409;
  code = "INVOICE_STATUS_INVALID_TRANSITION";
})

abbrev pub is_draft : InvoiceStatus → Bool
is_draft draft = true
is_draft _ = false

abbrev pub same_status : InvoiceStatus → InvoiceStatus → Bool
same_status draft draft = true
same_status issued issued = true
same_status paid paid = true
same_status void void = true
same_status _ _ = false

-- `transitionMap`
unfoldable pub transition_map : InvoiceStatus → List InvoiceStatus
transition_map draft = issued ∷ void ∷ []
transition_map issued = paid ∷ void ∷ []
transition_map paid = []
transition_map void = []

abbrev pub includes : List InvoiceStatus → InvoiceStatus → Bool
includes [] a = false
includes (x ∷ xs) a = same_status x a || includes xs a

-- `allowed.includes(status)`
unfoldable pub permits : InvoiceStatus → InvoiceStatus → Bool
unfolding transition_map
permits current next = includes (transition_map current) next

-- `data` of `updateInvoiceStatus`: the status, and the stamp that goes with it.
unfoldable pub stamp_status : InvoiceStatus → ℕ → Invoice → Invoice
stamp_status draft now i = record i { status = draft }
stamp_status issued now i = record i { status = issued; issued_at = some now }
stamp_status paid now i = record i { status = paid; paid_at = some now }
stamp_status void now i = record i { status = void; voided_at = some now }

-- `where: { id, orgId }`
abbrev pub is_invoice : String → String → Invoice → Bool
is_invoice org_id id r = str_eq r.id id && str_eq r.org_id org_id

abbrev pub is_line : String → String → String → InvoiceLine → Bool
is_line org_id invoice_id id r =
    str_eq r.id id && str_eq r.invoice_id invoice_id && str_eq r.org_id org_id

abbrev pub is_link : String → String → String → InvoiceWorkOrder → Bool
is_link org_id invoice_id work_order_id r =
    str_eq r.org_id org_id && str_eq r.invoice_id invoice_id && str_eq r.work_order_id work_order_id

unfoldable pub map_line_input : Env → String → String → ℕ → LineInput → InvoiceLine
map_line_input env org_id invoice_id n input = record {
  id = env.line_id n;
  org_id = org_id;
  invoice_id = invoice_id;
  description = input.description;
  quantity = or_else input.quantity 1;
  unit_price_cents = input.unit_price_cents;
  created_at = env.now;
}

abbrev pub make_link : Env → String → String → ℕ → String → InvoiceWorkOrder
make_link env org_id invoice_id n work_order_id = record {
  id = env.link_id n;
  org_id = org_id;
  invoice_id = invoice_id;
  work_order_id = work_order_id;
  created_at = env.now;
}

unfoldable pub make_links : Env → String → String → ℕ → List String → List InvoiceWorkOrder
make_links env org_id invoice_id n [] = []
make_links env org_id invoice_id n (w ∷ ws) =
    make_link env org_id invoice_id n w ∷ make_links env org_id invoice_id (suc n) ws

abbrev pub line_detail : InvoiceLine → LineDetail
line_detail l = record {
  id = l.id;
  description = l.description;
  quantity = l.quantity;
  unit_price_cents = l.unit_price_cents;
}

unfoldable pub update_line_fields : LineUpdateInput → InvoiceLine → InvoiceLine
update_line_fields input l = record l {
  description = or_else input.description l.description;
  quantity = or_else input.quantity l.quantity;
  unit_price_cents = or_else input.unit_price_cents l.unit_price_cents;
}

-- The invoice of `createInvoice`: a draft with no stamp.
abbrev pub new_invoice : Env → String → InvoiceInput → Invoice
new_invoice env org_id input = record {
  id = env.new_id;
  org_id = org_id;
  customer_id = input.customer_id;
  status = draft;
  due_date = input.due_date;
  memo = input.memo;
  issued_at = none;
  paid_at = none;
  voided_at = none;
  created_at = env.now;
}
