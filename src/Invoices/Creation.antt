-- ===== src/Invoices/Creation.antt =====
-- What `createInvoice` adds.
use fsm_backend.Prelude.{
  ℕ, suc, String, ◌≡◌, refl, ◌⊎◌, inl, inr, false, List, [], ◌∷◌, ◌++◌, or_else, arith,
}
use fsm_backend.Errors.{Result-cases, Thrown, prisma, p2002, err}
use fsm_backend.Prisma.{Database, clashes}
use fsm_backend.Invoices.Types.{
  InvoiceWorkOrder, invoice_unique, line_unique, link_unique, Store, Env, LineInput, InvoiceInput,
}
use fsm_backend.Invoices.Rules.{new_invoice, map_line_input, make_links}
use fsm_backend.Invoices.Service.{
  ensure_customer, ensure_work_orders_for_customer, create_invoice_row, create_line_row,
  create_link_row, create_lines, create_links, create_rows, create_invoice,
}

module _ (p : Database) where
  invoices-create_lines :
      (env : Env) (org_id : String) (n : ℕ) (ls : List LineInput) (s : Store p)
      → (create_lines p env org_id n ls s).1.invoices ≡ s.invoices
  unfolding create_lines create_line_row
  invoices-create_lines env org_id n [] s = refl
  invoices-create_lines env org_id n (l ∷ ls) s =
      elim (Result-cases
        (p.create line_unique (map_line_input env org_id env.new_id n l) s.lines)) [
          | inl (t, e) ↦ rw e (invoices-create_lines env org_id (suc n) ls (record s { lines = t }))
          | inr (x, e) ↦ rw e
        ]

  invoices-create_links :
      (ls : List InvoiceWorkOrder) (s : Store p) → (create_links p ls s).1.invoices ≡ s.invoices
  unfolding create_links create_link_row
  invoices-create_links [] s = refl
  invoices-create_links (l ∷ ls) s = elim (Result-cases (p.create link_unique l s.links)) [
    | inl (t, e) ↦ rw e (invoices-create_links ls (record s { links = t }))
    | inr (x, e) ↦ rw e
  ]

  -- The nested rows leave the invoice's own row as it was created.
  module _ (env : Env) (org_id : String) (input : InvoiceInput) (s : Store p) where
    abbrev IsAdded : Store p → Type 0
    IsAdded t =
        (clashes invoice_unique (new_invoice env org_id input) (p.rows s.invoices) ≡ false)
        × (p.rows t.invoices ≡ p.rows s.invoices ++ new_invoice env org_id input ∷ [])

    invoices-create_rows :
        ((x : Thrown) × ((create_rows p env org_id input s).0 ≡ err x))
        ⊎ IsAdded (create_rows p env org_id input s).1
    unfolding create_rows create_invoice_row
    invoices-create_rows =
        elim (p.create_law invoice_unique (new_invoice env org_id input) s.invoices) [
          | inr (u, e, m, c) ↦ inl (prisma (p2002 u.target), rw e)
          | inl (t, e, free, q) ↦
              let s1 : Store p = record s { invoices = t } in
              let ls : List LineInput = or_else input.lines [] in
              let ks : List InvoiceWorkOrder =
                make_links env org_id env.new_id 0 (or_else input.work_order_ids []) in
              elim (Result-cases (create_lines p env org_id 0 ls s1).0) [
                | inr (x, h) ↦ inl (x, ground arith)
                | inl (_, h) ↦ inr (
                  free,
                  ground (
                    arith,
                    invoices-create_lines env org_id 0 ls s1,
                    invoices-create_links ks (create_lines p env org_id 0 ls s1).1,
                  ),
                )
              ]
        ]

    -- Creating an invoice leaves the invoices as they were or appends the new draft, whose id was
    -- free.
    pub invoices-create :
        ((create_invoice p env org_id input s).1.invoices ≡ s.invoices)
        ⊎ IsAdded (create_invoice p env org_id input s).1
    unfolding create_invoice ensure_customer ensure_work_orders_for_customer
    invoices-create = elim (Result-cases (ensure_customer p org_id input.customer_id s).0) [
      | inr (x, h) ↦ inl (ground arith)
      | inl (c, h) ↦
          let ids : List String = or_else input.work_order_ids [] in
          elim (Result-cases (ensure_work_orders_for_customer p org_id input.customer_id ids s).0) [
            | inr (x, k) ↦ inl (ground arith)
            | inl (w, k) ↦ elim (Result-cases (create_rows p env org_id input s).0) [
              | inr (x, r) ↦ inl (ground arith)
              | inl (u, r) ↦ elim invoices-create_rows [
                | inl (x, bad) ↦ inl (ground arith)
                | inr (free, q) ↦ inr (free, ground arith)
              ]
            ]
          ]
    ]
