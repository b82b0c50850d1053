-- ===== src/Invoices/Status.antt =====
-- The status of an invoice: what `updateInvoiceStatus` does on each of its branches.
use fsm_backend.Prelude.{
  String, ◌≡◌, refl, ◌↔◌, ◌⊎◌, inl, inr, true, false, Option, Memᴰ, update_where, All, arith,
  str_eq, Bool-cases,
}
use mathlib.Core.Option
use fsm_backend.Errors.{Result, ok, err}
use fsm_backend.Prisma.{Database, unordered, update_free, find_first-cases}
use fsm_backend.Invoices.Types.{
  InvoiceStatus, draft, issued, paid, void, Invoice, Store, Env, InvoiceDetail,
}
use fsm_backend.Invoices.Rules.{
  invoice_not_found, invalid_transition, permits, stamp_status, is_invoice,
}
use fsm_backend.Invoices.Service.{ensure_invoice, shape_invoice}
use fsm_backend.Invoices.Edit.{update_invoice_status}

-- The life of an invoice.
pub data Edge : InvoiceStatus → InvoiceStatus → Type 0 where
  issue : Edge draft issued
  discard : Edge draft void
  settle : Edge issued paid
  cancel : Edge issued void

permits_sound : (a b : InvoiceStatus) → permits a b ≡ true → Edge a b
unfolding permits
permits_sound draft issued h = issue
permits_sound draft void h = discard
permits_sound issued paid h = settle
permits_sound issued void h = cancel
permits_sound _ _ h = cc

permits_complete : {a b : InvoiceStatus} → Edge a b → permits a b ≡ true
unfolding permits
permits_complete issue = refl
permits_complete discard = refl
permits_complete settle = refl
permits_complete cancel = refl

-- transitionMap permits exactly the moves draft to issued, draft to void, issued to paid and
-- issued to void.
pub permits_iff : (a b : InvoiceStatus) → (permits a b ≡ true) ↔ Edge a b
permits_iff a b = (permits_sound a b, permits_complete)

module _ (p : Database) where
  pub ensure_invoice-cases :
      (org_id id : String) (s : Store p)
      → ((ensure_invoice p org_id id s ≡ (err invoice_not_found, s))
          × All (λ r. is_invoice org_id id r ≡ false) (p.rows s.invoices))
        ⊎ ((r : Invoice) × (ensure_invoice p org_id id s ≡ (ok r, s))
            × (is_invoice org_id id r ≡ true)
            × Memᴰ r (p.rows s.invoices))
  unfolding ensure_invoice
  ensure_invoice-cases org_id id s =
      elim (find_first-cases p unordered (is_invoice org_id id) s.invoices) [
        | inl (e, h) ↦ inl (rw e, h)
        | inr (r, e, h, m) ↦ inr (r, rw e, h, m)
      ]

  module _ (env : Env) (org_id id : String) (status : InvoiceStatus) (s : Store p) where
    -- What the handler returns: the invoice read back.
    abbrev pub reread : Store p → Option InvoiceDetail
    reread t =
        Option.map (shape_invoice p t) (p.find_first unordered (λ r. str_eq r.id id) t.invoices)

    -- After a change the row of that id has the status and its stamp, and nothing else differs.
    abbrev pub IsChanged : Result (Option InvoiceDetail) × Store p → Type 0
    IsChanged out =
        (s' : Store p) × (out ≡ (ok (reread s'), s'))
        × (p.rows s'.invoices
            ≡ update_where (λ r. str_eq r.id id) (stamp_status status env.now) (p.rows s.invoices))
        × (s'.customers ≡ s.customers)
        × (s'.work_orders ≡ s.work_orders)
        × (s'.links ≡ s.links)
        × (s'.lines ≡ s.lines)

    -- A status update reports that the organization has no such invoice, or refuses a move that is
    -- no edge of an invoice's life and changes nothing, or writes the status and its stamp to the
    -- row of that id, changes nothing else and returns the invoice read back.
    pub update_invoice_status-cases :
        ((update_invoice_status p env org_id id status s ≡ (err invoice_not_found, s))
          × All (λ r. is_invoice org_id id r ≡ false) (p.rows s.invoices))
        ⊎ ((r : Invoice) × Memᴰ r (p.rows s.invoices)
            × (is_invoice org_id id r ≡ true)
            × ((¬ Edge r.status status)
                  × (update_invoice_status p env org_id id status s ≡ (err invalid_transition, s))
                ⊎ Edge r.status status
                  × IsChanged (update_invoice_status p env org_id id status s)))
    unfolding update_invoice_status
    update_invoice_status-cases = elim (ensure_invoice-cases org_id id s) [
      | inl (e, h) ↦ inl (rw e, h)
      | inr (r, e, h, m) ↦ inr (
        r,
        m,
        h,
        elim (Bool-cases (permits r.status status)) [
          | inr n ↦ inl ((λ edge. (let y = (permits_iff _ _).1 edge in cc)), rw (e, n))
          | inl y ↦
              let (t, done, q) =
                update_free p (λ i. str_eq i.id id) (stamp_status status env.now) s.invoices {r = r}
                  (ground arith) m in
              inr (
                (permits_iff _ _).0 y,
                (record s { invoices = t }, rw (e, y, done), q, refl, refl, refl, refl),
              )
        ],
      )
    ]
