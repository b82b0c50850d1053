-- ===== src/Invoices/History.antt =====
-- How a request can change an invoice.
use mathlib.Core.Path.{subst}
use fsm_backend.Prelude.{
  sym, mem-append_left, mem-update_where, ◌≢◌, ap, String, ◌≡◌, refl, ◌⊎◌, inl, inr, Memᴰ, All-mem,
  HasDistinctKeys-mem, str_eq, eq_iff, arith, ℕ,
}
use fsm_backend.Prisma.{Database}
use fsm_backend.Invoices.Types.{InvoiceStatus, paid, void, Invoice, Store, Env}
use fsm_backend.Invoices.Rules.{stamp_status}
use fsm_backend.Invoices.Status.{Edge, issue, discard, settle, cancel, update_invoice_status-cases}
use fsm_backend.Invoices.Requests.{
  Request, create, add_work_orders, remove_work_order, create_line, update_line, delete_line,
  update_status, after, Reach, here, next,
}
use fsm_backend.Invoices.Effects.{
  invoices-create_line, invoices-delete_line, invoices-update_line, invoices-remove_work_order,
  invoices-add_work_orders,
}
use fsm_backend.Invoices.Creation.{invoices-create}
use fsm_backend.Invoices.Invariant.{IsValid, Reach-IsValid, invoice_id}

-- A row `i`, or the row that it becomes along an edge of the life of an invoice.
abbrev pub IsNext : ℕ → Invoice → Invoice → Type 0
IsNext now i j = (j ≡ i) ⊎ Edge i.status j.status × (j ≡ stamp_status j.status now i)

module _ (p : Database) where
  kept :
      {a b : p.Table Invoice} (now : ℕ) (i : Invoice)
      → b ≡ a
      → Memᴰ i (p.rows a)
      → (j : Invoice) × Memᴰ j (p.rows b) × IsNext now i j
  kept now i e m = (i, rw e m, inl refl)

  status-stamped : (b : InvoiceStatus) (now : ℕ) (i : Invoice) → (stamp_status b now i).status ≡ b
  unfolding stamp_status
  status-stamped paid now i = refl
  status-stamped _ now i = refl

  -- No request loses an invoice: it leaves each one as it is or moves it along one edge with that
  -- edge's stamp, if invoice ids are distinct and stamps agree with statuses before it.
  pub after-IsNext :
      (env : Env) (org_id : String) (q : Request) (s : Store p) (i : Invoice)
      → IsValid p s
      → Memᴰ i (p.rows s.invoices)
      → (j : Invoice) × Memᴰ j (p.rows (after p env org_id q s).invoices) × IsNext env.now i j
  unfolding after
  after-IsNext env org_id (create input) s i v m = elim (invoices-create p env org_id input s) [
    | inl e ↦ kept env.now i e m
    | inr (free, q) ↦ (i, rw q (mem-append_left _ _ m), inl refl)
  ]
  after-IsNext env org_id (update_status id status) s i v m =
      elim (update_invoice_status-cases p env org_id id status s) [
        | inl (e, h) ↦ (i, rw (e, after) m, inl refl)
        | inr (r, n, w, inl (no_edge, e)) ↦ (i, rw (e, after) m, inl refl)
        | inr (r, n, w, inr (edge, (t, e, q, _, _, _, _))) ↦
            rw (e, after)
              (elim (mem-update_where (λ x. str_eq x.id id) (stamp_status status env.now) _ m) [
                | inr (h, k) ↦ (i, rw q k, inl refl)
                | inl (h, k) ↦
                    let only : i ≡ r =
                      All-mem (λ a. a.id ≡ r.id → a ≡ r) _
                        (HasDistinctKeys-mem invoice_id _ v.distinct n) m
                        (ground (arith, eq_iff i.id id, eq_iff r.id id)) in
                    (
                      stamp_status status env.now i,
                      rw q k,
                      inr (
                        rw (status-stamped, only) edge,
                        ap (λ b. stamp_status b env.now i) (sym (status-stamped status env.now i)),
                      ),
                    )
              ])
      ]
  after-IsNext env org_id (create_line id input) s i v m =
      kept env.now i (invoices-create_line p env org_id id s input) m
  after-IsNext env org_id (delete_line id l) s i v m =
      kept env.now i (invoices-delete_line p env org_id id s l) m
  after-IsNext env org_id (update_line id l input) s i v m =
      kept env.now i (invoices-update_line p env org_id id s l input) m
  after-IsNext env org_id (remove_work_order id w) s i v m =
      kept env.now i (invoices-remove_work_order p env org_id id s w) m
  after-IsNext env org_id (add_work_orders id ws) s i v m =
      kept env.now i (invoices-add_work_orders p env org_id id s ws) m

  not_terminal : {a b : InvoiceStatus} → Edge a b → (a ≢ paid) × (a ≢ void)
  not_terminal issue = ((λ e. cc), (λ e. cc))
  not_terminal discard = ((λ e. cc), (λ e. cc))
  not_terminal settle = ((λ e. cc), (λ e. cc))
  not_terminal cancel = ((λ e. cc), (λ e. cc))

  terminal-step :
      (now : ℕ) (i j : Invoice) → (i.status ≡ paid) ⊎ (i.status ≡ void) → IsNext now i j → j ≡ i
  terminal-step now i j h (inl e) = e
  terminal-step now i j (inl a) (inr (edge, e)) = absurd ((not_terminal edge).0 a)
  terminal-step now i j (inr a) (inr (edge, e)) = absurd ((not_terminal edge).1 a)

  -- A paid or void invoice stays in the table exactly as it is, whatever requests follow, if
  -- invoice ids are distinct and stamps agree with statuses at the start.
  pub terminal-Reach :
      {s t : Store p} (i : Invoice)
      → IsValid p s
      → Memᴰ i (p.rows s.invoices)
      → (i.status ≡ paid) ⊎ (i.status ≡ void)
      → Reach p s t
      → Memᴰ i (p.rows t.invoices)
  terminal-Reach i v m h here = m
  terminal-Reach i v m h (next {t} env org_id q r) =
      let (j, k, n) =
        after-IsNext env org_id q t i (Reach-IsValid p v r) (terminal-Reach i v m h r) in
      subst (λ x. Memᴰ x (p.rows (after p env org_id q t).invoices)) (terminal-step env.now i j h n)
        k
