-- ===== src/Invoices/Billable.antt =====
-- The check of the work orders that an invoice names. modules/invoices/invoices.service.ts

use mathlib.Core.List.Permᴰ
use fsm_backend.Prelude.{
  String, Bool, true, false, not, ◌&&◌, Option, none, some, List, [], ◌∷◌, ◌≡◌, refl, sym, ap, ◌∙◌,
  ◌⊎◌, inl, inr, Memᴰ, All, All-mem, All-of_mem, All-named, HasDistinctKeys, length, length-perm,
  length-select, select-cong, count, any, any-mem, mem-perm, mem-select, mem-distinct, elem-mem,
  elem, distinct, Bool-cases, both, eq_iff, str_eq, opt_eq, ◌==◌, ==_iff, arith,
}
use fsm_backend.Errors.{Thrown, ok, err}
use fsm_backend.Prisma.{Database, unordered}
use fsm_backend.Invoices.Types.{WorkOrder, Store}
use fsm_backend.Invoices.Rules.{work_order_not_found, work_order_customer_mismatch}
use fsm_backend.Invoices.Service.{ensure_work_orders_for_customer, check_work_orders}

pub same_org : (a : Option String) (k : String) → opt_eq a (some k) ≡ true → a ≡ some k
same_org none k h = cc
same_org (some a) k h = ap some ((eq_iff a k).0 h)

module _ (p : Database) where
  -- Each of the ids is that of a work order of the organization and of the customer.
  abbrev pub AreBillable : String → String → Store p → List String → Type 0
  AreBillable org_id customer_id s ids =
      All
        (λ k.
          (w : WorkOrder) × Memᴰ w (p.rows s.work_orders)
          × (w.id ≡ k)
          × (w.org_id ≡ some org_id)
          × (w.customer_id ≡ customer_id))
        ids

  module _ (org_id customer_id : String) (ids : List String) (s : Store p) where
    abbrev is_named : WorkOrder → Bool
    is_named w = elem w.id (distinct ids) && opt_eq w.org_id (some org_id)

    abbrev is_named_of_org : WorkOrder → Bool
    is_named_of_org w = opt_eq w.org_id (some org_id) && elem w.id (distinct ids)

    abbrev found : List WorkOrder
    found = p.find_many unordered is_named s.work_orders

    abbrev is_other : WorkOrder → Bool
    is_other w = not (str_eq w.customer_id customer_id)

    found-count : length found ≡ count is_named_of_org (p.rows s.work_orders)
    found-count =
        length-perm (p.find_many_perm unordered is_named s.work_orders)
        ∙ ap length
            (select-cong is_named is_named_of_org (λ w. ground arith) (p.rows s.work_orders))
        ∙ length-select is_named_of_org (p.rows s.work_orders)

    own_customer :
        any is_other found ≡ false
        → (w : WorkOrder) → Memᴰ w (p.rows s.work_orders)
        → is_named w ≡ true
        → w.customer_id ≡ customer_id
    own_customer h w m named = elim (Bool-cases (str_eq w.customer_id customer_id)) [
      | inl e ↦ (eq_iff w.customer_id customer_id).0 e
      | inr e ↦
          let i =
            mem-perm (Permᴰ.symm (p.find_many_perm unordered is_named s.work_orders))
              (mem-select is_named (p.rows s.work_orders) named m) in
          absurd (let bad = any-mem is_other found (rw e refl) i in cc)
    ]

    found-AreBillable :
        HasDistinctKeys (λ (w : WorkOrder). w.id) (p.rows s.work_orders)
        → length found ≡ length (distinct ids)
        → any is_other found ≡ false
        → AreBillable org_id customer_id s ids
    found-AreBillable d same own =
        let all =
          All-named (λ (w : WorkOrder). w.id) (λ w. opt_eq w.org_id (some org_id)) (distinct ids)
            (p.rows s.work_orders) d (sym found-count ∙ same) in
        All-of_mem _ ids λ k m.
          let (w, n, q) = All-mem _ (distinct ids) all (mem-distinct k ids m) in
          let (of_org, id) = (both _ _).0 q in
          let e : w.id ≡ k = (eq_iff w.id k).0 id in
          let listed : elem w.id (distinct ids) ≡ true =
            (rw e (elem-mem k (distinct ids) (mem-distinct k ids m))) in
          (
            w,
            n,
            e,
            same_org w.org_id org_id of_org,
            own_customer own w n ((both _ _).1 (listed, of_org)),
          )

    pub ensure_work_orders-cases :
        HasDistinctKeys (λ (w : WorkOrder). w.id) (p.rows s.work_orders)
        → ((e : Thrown) × (ensure_work_orders_for_customer p org_id customer_id ids s ≡ (err e, s)))
          ⊎ ((ws : List WorkOrder) × (ensure_work_orders_for_customer p org_id customer_id ids s
                ≡ (ok ws, s))
              × AreBillable org_id customer_id s ids)
    unfolding ensure_work_orders_for_customer check_work_orders
    ensure_work_orders-cases d = elim (Bool-cases (length (distinct ids) == 0)) [
      | inl e ↦ inr (
        [],
        rw e refl,
        All-of_mem _ ids
            λ k m. absurd (none_named (distinct ids) ((==_iff _ _).0 e) (mem-distinct k ids m)),
      )
      | inr e ↦ elim (Bool-cases (length found == length (distinct ids))) [
        | inr f ↦ inl (work_order_not_found, rw (e, f) refl)
        | inl f ↦ elim (Bool-cases (any is_other found)) [
          | inl g ↦ inl (work_order_customer_mismatch, rw (e, f, g) refl)
          | inr g ↦ inr (found, rw (e, f, g) refl, found-AreBillable d ((==_iff _ _).0 f) g)
        ]
      ]
    ]
      where
        none_named : (ks : List String) → length ks ≡ 0 → {k : String} → Memᴰ k ks → ⊥
        none_named [] e m = elim m [ ]
        none_named (x ∷ xs) e m = absurd (omega arith)
