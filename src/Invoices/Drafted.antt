-- ===== src/Invoices/Drafted.antt =====
-- What the creation of an invoice checks and writes. modules/invoices/invoices.service.ts
use mathlib.Core.List
use mathlib.Core.List.Permᴰ
use fsm_backend.Prelude.{
  ◌++◌, or_else, suc, ℕ, String, ◌&&◌, none, some, List, [], ◌∷◌, ◌≡◌, refl, sym, ◌∙◌, ◌⊎◌, inl,
  inr, Memᴰ, HasDistinctKeys, both, eq_iff, str_eq, opt_eq,
}
use fsm_backend.Errors.{p2002, prisma, Thrown, ok, err}
use fsm_backend.Prisma.{find_first-cases, Database, unordered}
use fsm_backend.Invoices.Types.{
  line_unique, link_unique, Customer, invoice_unique, InvoiceLine, draft, LineInput,
  InvoiceWorkOrder, Invoice, InvoiceInput, Env, WorkOrder, Store,
}
use fsm_backend.Invoices.Rules.{customer_not_found, new_invoice, map_line_input, make_links}
use fsm_backend.Invoices.Service.{
  shape_invoice, create_invoice_row, ensure_customer, create_link_row, create_rows, create_line_row,
  create_invoice, create_lines, create_links,
}
use fsm_backend.Invoices.Billable.{same_org, AreBillable, ensure_work_orders-cases}

module _ (p : Database) where
  module _ (env : Env) (org_id : String) where
    -- The rows of the lines, the quantity 1 where a line has none.
    abbrev pub billed_lines : ℕ → List LineInput → List InvoiceLine
    billed_lines n [] = []
    billed_lines n (l ∷ ls) =
        record {
          id = env.line_id n;
          org_id = org_id;
          invoice_id = env.new_id;
          description = l.description;
          quantity = or_else l.quantity 1;
          unit_price_cents = l.unit_price_cents;
          created_at = env.now;
        }
        ∷ billed_lines (suc n) ls

    -- The rows of the links to work orders.
    abbrev pub billed_links : ℕ → List String → List InvoiceWorkOrder
    billed_links n [] = []
    billed_links n (k ∷ ks) =
        record {
          id = env.link_id n;
          org_id = org_id;
          invoice_id = env.new_id;
          work_order_id = k;
          created_at = env.now;
        }
        ∷ billed_links (suc n) ks

    make_links-billed_links :
        (n : ℕ) (ks : List String) → make_links env org_id env.new_id n ks ≡ billed_links n ks
    unfolding make_links
    make_links-billed_links n [] = refl
    make_links-billed_links n (k ∷ ks) = rw (make_links-billed_links (suc n) ks) refl

    create_lines-cases :
        (n : ℕ) (ls : List LineInput) (s : Store p)
        → ((e : Thrown) × (t : Store p) × (create_lines p env org_id n ls s ≡ (err e, t)))
          ⊎ ((u : p.Table InvoiceLine) × (create_lines p env org_id n ls s
                ≡ (ok tt, record s { lines = u }))
              × (p.rows u ≡ p.rows s.lines ++ billed_lines n ls))
    unfolding create_lines create_line_row map_line_input
    create_lines-cases n [] s = inr (s.lines, refl, sym (List.append-nil (p.rows s.lines)))
    create_lines-cases n (l ∷ ls) s =
        elim (p.create_law line_unique (map_line_input env org_id env.new_id n l) s.lines) [
          | inr (u, e, _, _) ↦ inl (prisma (p2002 u.target), s, rw e refl)
          | inl (u, e, _, q) ↦ elim (create_lines-cases (suc n) ls (record s { lines = u })) [
            | inl (x, t, f) ↦ inl (x, t, rw (e, f) refl)
            | inr (v, f, k) ↦ inr (
              v,
              rw (e, f) refl,
              k ∙ rw q (List.append_assoc (p.rows s.lines) _ (billed_lines (suc n) ls)),
            )
          ]
        ]

    create_links-cases :
        (ls : List InvoiceWorkOrder) (s : Store p)
        → ((e : Thrown) × (t : Store p) × (create_links p ls s ≡ (err e, t)))
          ⊎ ((u : p.Table InvoiceWorkOrder) × (create_links p ls s
                ≡ (ok tt, record s { links = u }))
              × (p.rows u ≡ p.rows s.links ++ ls))
    unfolding create_links create_link_row
    create_links-cases [] s = inr (s.links, refl, sym (List.append-nil (p.rows s.links)))
    create_links-cases (l ∷ ls) s = elim (p.create_law link_unique l s.links) [
      | inr (u, e, _, _) ↦ inl (prisma (p2002 u.target), s, rw e refl)
      | inl (u, e, _, q) ↦ elim (create_links-cases ls (record s { links = u })) [
        | inl (x, t, f) ↦ inl (x, t, rw (e, f) refl)
        | inr (v, f, k) ↦
            inr (v, rw (e, f) refl, k ∙ rw q (List.append_assoc (p.rows s.links) (l ∷ []) ls))
      ]
    ]

  module _ (env : Env) (org_id : String) (input : InvoiceInput) (s : Store p) where
    -- A draft for the customer, neither issued, paid nor voided.
    abbrev pub drafted : Invoice
    drafted = record {
      id = env.new_id;
      org_id = org_id;
      customer_id = input.customer_id;
      status = draft;
      due_date = input.due_date;
      memo = input.memo;
      issued_at = none;
      paid_at = none;
      voided_at = none;
      created_at = env.now;
    }

    -- The draft, its lines and its links are added, and nothing else is written.
    pub record IsDrafted (t : Store p) : Type 0 where
      pub invoices : p.rows t.invoices ≡ p.rows s.invoices ++ drafted ∷ []
      pub lines :
          p.rows t.lines ≡ p.rows s.lines ++ billed_lines env org_id 0 (or_else input.lines [])
      pub links :
          p.rows t.links
          ≡ p.rows s.links ++ billed_links env org_id 0 (or_else input.work_order_ids [])
      pub customers : t.customers ≡ s.customers
      pub work_orders : t.work_orders ≡ s.work_orders

    create_rows-cases :
        ((e : Thrown) × (t : Store p) × (create_rows p env org_id input s ≡ (err e, t)))
        ⊎ ((t : Store p) × (create_rows p env org_id input s ≡ (ok tt, t)) × IsDrafted t)
    unfolding create_rows create_invoice_row
    create_rows-cases =
        elim (p.create_law invoice_unique (new_invoice env org_id input) s.invoices) [
          | inr (u, e, _, _) ↦ inl (prisma (p2002 u.target), s, rw e refl)
          | inl (i, e, _, qi) ↦
              elim (create_lines-cases env org_id 0 (or_else input.lines [])
                (record s { invoices = i })) [
                  | inl (x, t, f) ↦ inl (x, t, rw (e, f) refl)
                  | inr (l, f, ql) ↦
                      elim (create_links-cases env org_id
                        (make_links env org_id env.new_id 0 (or_else input.work_order_ids []))
                        (record s { invoices = i; lines = l })) [
                          | inl (x, t, g) ↦ inl (x, t, rw (e, f, g) refl)
                          | inr (k, g, qk) ↦ inr (
                            record s { invoices = i; lines = l; links = k },
                            rw (e, f, g) refl,
                            record {
                              invoices = qi;
                              lines = ql;
                              links =
                                  qk
                                  ∙ rw
                                      (make_links-billed_links env org_id 0
                                        (or_else input.work_order_ids []))
                                      refl;
                              customers = refl;
                              work_orders = refl;
                            },
                          )
                        ]
                ]
        ]

    -- Creating an invoice throws and changes nothing, or the customer is of the organization, each
    -- work order named is one of the organization and of that customer, and what is added is one
    -- draft for the customer, neither issued, paid nor voided, a line for each line of the input
    -- and a link to each work order, in their order; the answer shows that draft; if work orders
    -- have distinct ids.
    pub create_invoice-cases :
        HasDistinctKeys (λ (w : WorkOrder). w.id) (p.rows s.work_orders)
        → ((e : Thrown) × (create_invoice p env org_id input s ≡ (err e, s)))
          ⊎ ((t : Store p) × (create_invoice p env org_id input s
                ≡ (ok (shape_invoice p t drafted), t))
              × ((c : Customer) × Memᴰ c (p.rows s.customers)
                  × (c.id ≡ input.customer_id)
                  × (c.org_id ≡ some org_id))
              × AreBillable p org_id input.customer_id s (or_else input.work_order_ids [])
              × IsDrafted t)
    unfolding create_invoice ensure_customer
    create_invoice-cases d =
        elim (find_first-cases p unordered
          (λ r. str_eq r.id input.customer_id && opt_eq r.org_id (some org_id)) s.customers) [
            | inl (e, _) ↦ inl (customer_not_found, rw e refl)
            | inr (c, e, w, m) ↦
                elim (ensure_work_orders-cases p org_id input.customer_id
                  (or_else input.work_order_ids []) s d) [
                    | inl (x, f) ↦ inl (x, rw (e, f) refl)
                    | inr (ws, f, billable) ↦ elim create_rows-cases [
                      | inl (x, t, g) ↦ inl (x, rw (e, f, g) refl)
                      | inr (t, g, written) ↦
                          let (is_id, of_org) = (both _ _).0 w in
                          inr (
                            t,
                            rw (e, f, g) refl,
                            (
                              c,
                              m,
                              (eq_iff c.id input.customer_id).0 is_id,
                              same_org c.org_id org_id of_org,
                            ),
                            billable,
                            written,
                          )
                    ]
                  ]
          ]
