-- ===== src/Invoices/Invariant.antt =====
-- What holds of the invoices after any requests.
use fsm_backend.Prelude.{
  String, ◌≡◌, refl, sym, ap, ◌∙◌, inl, inr, true, Option, none, is_some, Memᴰ, All, All-append,
  All-update_where_with, HasDistinctKeys, HasDistinctKeys-mem, HasDistinctKeys-update_where,
  HasDistinctKeys-append, All-ne_of_any, update_where, str_eq, eq_iff, arith, ℕ,
}
use fsm_backend.Prisma.{Database}
use fsm_backend.Invoices.Types.{InvoiceStatus, draft, issued, paid, void, Invoice, Store, Env}
use fsm_backend.Invoices.Rules.{stamp_status, new_invoice}
use fsm_backend.Invoices.Status.{Edge, issue, discard, settle, cancel, update_invoice_status-cases}
use fsm_backend.Invoices.Requests.{
  Request, create, add_work_orders, remove_work_order, create_line, update_line, delete_line,
  update_status, after, Reach, here, next,
}
use fsm_backend.Invoices.Effects.{
  invoices-create_line, invoices-delete_line, invoices-update_line, invoices-remove_work_order,
  invoices-add_work_orders,
}
use fsm_backend.Invoices.Creation.{invoices-create}

-- The stamps that an invoice of a status has, and those that it lacks.
abbrev pub HasStamps : InvoiceStatus → Option ℕ → Option ℕ → Option ℕ → Type 0
HasStamps draft i p v = (i ≡ none) × (p ≡ none) × (v ≡ none)
HasStamps issued i p v = (is_some i ≡ true) × (p ≡ none) × (v ≡ none)
HasStamps paid i p v = (is_some i ≡ true) × (is_some p ≡ true) × (v ≡ none)
HasStamps void i p v = (p ≡ none) × (is_some v ≡ true)

abbrev pub IsStamped : Invoice → Type 0
IsStamped i = HasStamps i.status i.issued_at i.paid_at i.voided_at

abbrev pub invoice_id : Invoice → String
invoice_id i = i.id

pub record IsValid (p : Database) (s : Store p) : Type 0 where
  pub distinct : HasDistinctKeys invoice_id (p.rows s.invoices)
  pub stamped : All IsStamped (p.rows s.invoices)

HasStamps-stamp_status :
    {a b : InvoiceStatus} (now : ℕ) (i : Invoice)
    → Edge a b
    → i.status ≡ a
    → IsStamped i
    → IsStamped (stamp_status b now i)
unfolding stamp_status
HasStamps-stamp_status now i issue e h = ground arith
HasStamps-stamp_status now i discard e h = ground arith
HasStamps-stamp_status now i settle e h = ground arith
HasStamps-stamp_status now i cancel e h = ground arith

id-stamp_status : (b : InvoiceStatus) (now : ℕ) (i : Invoice) → (stamp_status b now i).id ≡ i.id
unfolding stamp_status
id-stamp_status draft now i = refl
id-stamp_status _ now i = refl

status-stamp_status :
    (b : InvoiceStatus) (now : ℕ) (i : Invoice) → (stamp_status b now i).status ≡ b
unfolding stamp_status
status-stamp_status draft now i = refl
status-stamp_status _ now i = refl

module _ (p : Database) where
  -- An invariant of the rows carries over where the table does not change.
  IsValid-same : {s t : Store p} → t.invoices ≡ s.invoices → IsValid p s → IsValid p t
  IsValid-same e v = record { distinct = rw e v.distinct; stamped = rw e v.stamped }

  IsValid-change :
      {s t : Store p} {r : Invoice} (id : String) (b : InvoiceStatus) (now : ℕ)
      → r.id ≡ id
      → Memᴰ r (p.rows s.invoices)
      → Edge r.status b
      → p.rows t.invoices
        ≡ update_where (λ i. str_eq i.id id) (stamp_status b now) (p.rows s.invoices)
      → IsValid p s
      → IsValid p t
  IsValid-change {s} {r} id b now same m edge q v = record {
    distinct = rw q (
        HasDistinctKeys-update_where invoice_id _ (stamp_status b now) _ (id-stamp_status b now)
          v.distinct);
    stamped = rw q (
        All-update_where_with IsStamped (λ a. a.id ≡ r.id → a ≡ r) _ _ (p.rows s.invoices)
          (λ a w h only.
            HasStamps-stamp_status now a edge
              (ap (λ (i : Invoice). i.status) (only ((eq_iff a.id id).0 w ∙ sym same))) h)
          v.stamped (HasDistinctKeys-mem invoice_id _ v.distinct m));
  }

  -- Every request keeps the invoices' ids distinct and their stamps in accord with their statuses.
  pub after-IsValid :
      (env : Env) (org_id : String) (q : Request) (s : Store p)
      → IsValid p s
      → IsValid p (after p env org_id q s)
  unfolding after
  after-IsValid env org_id (create input) s v = elim (invoices-create p env org_id input s) [
    | inl e ↦ IsValid-same e v
    | inr (free, q) ↦ record {
      distinct = rw q (
          HasDistinctKeys-append invoice_id _ (new_invoice env org_id input)
            (All-ne_of_any invoice_id (new_invoice env org_id input) (p.rows s.invoices)
              (ground arith))
            v.distinct);
      stamped = rw q (All-append IsStamped _ _ v.stamped ((refl, refl, refl), tt));
    }
  ]
  after-IsValid env org_id (update_status id status) s v =
      elim (update_invoice_status-cases p env org_id id status s) [
        | inl (e, h) ↦ rw (e, after) v
        | inr (r, m, w, inl (n, e)) ↦ rw (e, after) v
        | inr (r, m, w, inr (edge, (t, e, q, _, _, _, _))) ↦
            rw (e, after)
              (IsValid-change id status env.now (ground (arith, eq_iff r.id id)) m edge q v)
      ]
  after-IsValid env org_id (create_line id input) s v =
      IsValid-same (invoices-create_line p env org_id id s input) v
  after-IsValid env org_id (delete_line id l) s v =
      IsValid-same (invoices-delete_line p env org_id id s l) v
  after-IsValid env org_id (update_line id l input) s v =
      IsValid-same (invoices-update_line p env org_id id s l input) v
  after-IsValid env org_id (remove_work_order id w) s v =
      IsValid-same (invoices-remove_work_order p env org_id id s w) v
  after-IsValid env org_id (add_work_orders id ws) s v =
      IsValid-same (invoices-add_work_orders p env org_id id s ws) v

  -- After any requests of any organizations, the invoices' ids are distinct and each invoice has
  -- the stamps that its status calls for and lacks those that it excludes, if this holds at the
  -- start.
  pub Reach-IsValid : {s t : Store p} → IsValid p s → Reach p s t → IsValid p t
  Reach-IsValid v here = v
  Reach-IsValid v (next {t} env org_id q r) = after-IsValid env org_id q t (Reach-IsValid v r)
