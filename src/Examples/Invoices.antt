-- ===== src/Examples/Invoices.antt =====
-- A draft invoice with its customer, and requests for it.
use fsm_backend.Invoices.Service.{shape_invoice, create_line_row, check_work_orders, create_invoice}
use fsm_backend.Invoices.Edit.{update_invoice_status}
use fsm_backend.Prelude.{
  HasDistinctKeys, zero, suc, distinct, false, All, ◌⊎◌, true, ne_text, refl, none, some, [], ◌∷◌,
  Memᴰ, inr, ◌≡◌,
}
use fsm_backend.Memory.{memory}
use fsm_backend.Invoices.Rules.{map_line_input, make_links}
use fsm_backend.Invoices.Service.{
  ensure_customer, ensure_work_orders_for_customer, create_rows, create_lines, create_links,
  create_invoice_row, create_link_row,
}
use fsm_backend.Errors.{ok, Thrown, prisma, p2002, err}
use fsm_backend.Invoices.Types.{
  Customer, InvoiceDetail, WorkOrder, Store, Env, Invoice, InvoiceInput, draft, issued, paid, void,
}
use fsm_backend.Invoices.Requests.{update_status, after, here, next}
use fsm_backend.Invoices.Status.{IsChanged, update_invoice_status-cases, Edge}
use fsm_backend.Invoices.Rules.{invalid_transition, is_invoice, invoice_not_found}
use fsm_backend.Invoices.Billable.{AreBillable}
use fsm_backend.Invoices.Drafted.{drafted, IsDrafted, create_invoice-cases}
use fsm_backend.Invoices.Invariant.{IsValid, Reach-IsValid}
use fsm_backend.Invoices.History.{after-IsNext, terminal-Reach, IsNext}

abbrev env : Env
env = record { now = 1000; new_id = "invoice-9"; line_id = λ n. "line"; link_id = λ n. "link" }

abbrev draft_invoice : Invoice
draft_invoice = record {
  id = "invoice-1";
  org_id = "org-1";
  customer_id = "customer-1";
  status = draft;
  due_date = none;
  memo = none;
  issued_at = none;
  paid_at = none;
  voided_at = none;
  created_at = 10;
}

abbrev void_invoice : Invoice
void_invoice = record draft_invoice { id = "invoice-2"; status = void; voided_at = some 20 }

abbrev store : Store memory
unfolding memory
store = record {
  customers = record { id = "customer-1"; org_id = some "org-1"; name = "Ada" } ∷ [];
  work_orders = [];
  invoices = draft_invoice ∷ void_invoice ∷ [];
  links = [];
  lines = [];
}

store-IsValid : IsValid memory store
unfolding memory
store-IsValid = record {
  distinct = ((ne_text "invoice-2" "invoice-1" refl, tt), (tt, tt));
  stamped = ((refl, refl, refl), ((refl, refl), tt));
}

abbrev input : InvoiceInput
input = record {
  customer_id = "customer-1";
  due_date = none;
  memo = some "march";
  work_order_ids = none;
  lines = none;
}

draft_in : Memᴰ draft_invoice (memory.rows store.invoices)
unfolding memory
draft_in = Memᴰ.head refl

void_in : Memᴰ void_invoice (memory.rows store.invoices)
unfolding memory
void_in = Memᴰ.tail (Memᴰ.head refl)

Reach-IsValid_example :
    IsValid memory (after memory env "org-1" (update_status "invoice-1" issued) store)
Reach-IsValid_example =
    Reach-IsValid memory store-IsValid (next env "org-1" (update_status "invoice-1" issued) here)

terminal-Reach_example :
    Memᴰ void_invoice
      (memory.rows (after memory env "org-1" (update_status "invoice-2" paid) store).invoices)
terminal-Reach_example =
    terminal-Reach memory void_invoice store-IsValid void_in (inr refl)
      (next env "org-1" (update_status "invoice-2" paid) here)

after-IsNext_example :
    (j : Invoice) × Memᴰ j
      (memory.rows (after memory env "org-1" (update_status "invoice-1" issued) store).invoices)
    × IsNext 1000 draft_invoice j
after-IsNext_example =
    after-IsNext memory env "org-1" (update_status "invoice-1" issued) store draft_invoice
      store-IsValid draft_in

-- An invoice with two lines for the work order of the table.
abbrev full_input : InvoiceInput
full_input = record input {
  work_order_ids = some ("work-1" ∷ []);
  lines = some (
      record { description = "Labour"; quantity = some 2; unit_price_cents = some 5000 }
      ∷ record { description = "Parts"; quantity = none; unit_price_cents = none }
      ∷ []);
}

abbrev with_work : Store memory
unfolding memory
with_work = record store {
  work_orders =
      record {
        id = "work-1";
        org_id = some "org-1";
        customer_id = "customer-1";
        summary = "Boiler";
      }
      ∷ [];
}

with_work-distinct : HasDistinctKeys (λ (w : WorkOrder). w.id) (memory.rows with_work.work_orders)
unfolding memory
with_work-distinct = (tt, tt)

-- Line and link ids that differ, as generated ones do.
abbrev two_ids : Env
two_ids = record env {
  line_id = λ n. elim n [ zero ↦ "line-0" | suc m ↦ "line-1" ];
  link_id = λ n. elim n [ zero ↦ "link-0" | suc m ↦ "link-1" ];
}

create_works :
    (i : InvoiceDetail) × ((create_invoice memory two_ids "org-1" full_input with_work).0 ≡ ok i)
unfolding memory create_invoice ensure_customer ensure_work_orders_for_customer check_work_orders
    create_rows create_lines create_links create_invoice_row create_line_row create_link_row
    make_links map_line_input distinct
create_works = (_, refl)

create_invoice-cases_example :
    ((e : Thrown) × (create_invoice memory two_ids "org-1" full_input with_work
        ≡ (err e, with_work)))
    ⊎ ((t : Store memory) × (create_invoice memory two_ids "org-1" full_input with_work
          ≡ (ok (shape_invoice memory t (drafted memory two_ids "org-1" full_input with_work)), t))
        × ((c : Customer) × Memᴰ c (memory.rows with_work.customers)
            × (c.id ≡ "customer-1")
            × (c.org_id ≡ some "org-1"))
        × AreBillable memory "org-1" "customer-1" with_work ("work-1" ∷ [])
        × IsDrafted memory two_ids "org-1" full_input with_work t)
create_invoice-cases_example =
    create_invoice-cases memory two_ids "org-1" full_input with_work with_work-distinct

update_invoice_status-cases_example :
    ((update_invoice_status memory env "org-1" "invoice-1" issued store
        ≡ (err invoice_not_found, store))
      × All (λ r. is_invoice "org-1" "invoice-1" r ≡ false) (memory.rows store.invoices))
    ⊎ ((r : Invoice) × Memᴰ r (memory.rows store.invoices)
        × (is_invoice "org-1" "invoice-1" r ≡ true)
        × ((¬ Edge r.status issued)
              × (update_invoice_status memory env "org-1" "invoice-1" issued store
                  ≡ (err invalid_transition, store))
            ⊎ Edge r.status issued
              × IsChanged memory env "org-1" "invoice-1" issued store
                  (update_invoice_status memory env "org-1" "invoice-1" issued store)))
update_invoice_status-cases_example =
    update_invoice_status-cases memory env "org-1" "invoice-1" issued store

-- An invoice for the same work order twice.
abbrev twice : InvoiceInput
twice = record input { work_order_ids = some ("work-1" ∷ "work-1" ∷ []) }

repeated_work_order :
    (create_invoice memory two_ids "org-1" twice with_work).0
    ≡ err (prisma (p2002 ("orgId" ∷ "invoiceId" ∷ "workOrderId" ∷ [])))
unfolding memory create_invoice ensure_customer ensure_work_orders_for_customer create_rows
    create_lines create_links create_invoice_row create_link_row make_links distinct
repeated_work_order = refl
