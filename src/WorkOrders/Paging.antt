-- ===== src/WorkOrders/Paging.antt =====
-- The pages of a list of work orders. modules/work-orders/workOrders.service.ts
use fsm_backend.Prelude.{
  some, none, Option, ◌≢◌, All, All-mem, All-of_mem, mem-perm, Memᴰ, Bool-cases, inl, inr, ltb,
  true, false, ◌∙◌, ◌-◌, sym, ap, length-perm, ap, ◌≡◌, ◌≤◌, Bool, ℕ, zero, suc, ◌+◌, ◌*◌, refl,
  arith, List, [], ◌∷◌, ◌++◌, map, take, length, select,
}
use mathlib.Core.List
use mathlib.Core.List.Permᴰ
use mathlib.Core.List.{Permᴰ}
use fsm_backend.Prisma.{
  IsOrdered, lex_null, unordered, ascending_null_then, ascending_null_then, Database, drop,
}
use fsm_backend.WorkOrders.Types.{WorkOrder, Store}
use fsm_backend.WorkOrders.Listing.{WorkOrderListItem, page_of, list_item}

take-drop : {A : Type 0} (a b : ℕ) (xs : List A) → take (a + b) xs ≡ take a xs ++ take b (drop a xs)
take-drop zero b xs = (let e : 0 + b ≡ b = omega arith in rw e refl)
take-drop (suc a) zero [] = (let e : suc a + 0 ≡ suc a = omega arith in rw e refl)
take-drop (suc a) (suc b) [] = (let e : suc a + suc b ≡ suc (a + suc b) = omega arith in rw e refl)
take-drop {A} (suc a) b (x ∷ xs) =
    let e : suc a + b ≡ suc (a + b) = omega arith in
    rw e (ap (λ (ys : List A). x ∷ ys) (take-drop a b xs))

take_all : {A : Type 0} (n : ℕ) (xs : List A) → length xs ≤ n → take n xs ≡ xs
take_all zero [] h = refl
take_all zero (x ∷ xs) h = absurd (omega arith)
take_all (suc n) [] h = refl
take_all {A} (suc n) (x ∷ xs) h = ap (λ (ys : List A). x ∷ ys) (take_all n xs (omega arith))

abbrev start_of : WorkOrder → Option ℕ
start_of o = o.scheduled_start

-- One start before another, the missing ones last.
abbrev start_lt : Option ℕ → Option ℕ → Bool
start_lt (some m) (some n) = ltb m n
start_lt (some m) none = true
start_lt none n = false

start_lt-lex_null :
    (m n : Option ℕ) (k l : ℕ) → lex_null m k n l ≡ true → n ≢ m → start_lt m n ≡ true
start_lt-lex_null (some m) (some n) k l h d = elim (Bool-cases (ltb m n)) [
  | inl e ↦ e
  | inr e ↦ absurd (d (ap some (ground arith)))
]
start_lt-lex_null (some m) none k l h d = refl
start_lt-lex_null none (some n) k l h d = absurd (cc)
start_lt-lex_null none none k l h d = absurd (d refl)

start_lt_asym : (m n : Option ℕ) → start_lt m n ≡ true → start_lt n m ≡ true → ⊥
start_lt_asym (some m) (some n) h k = ground arith
start_lt_asym (some m) none h k = cc
start_lt_asym none n h k = cc

-- No two work orders of a list start at the same time, and at most one has no start.
abbrev pub HaveDistinctStarts : List WorkOrder → Type 0
HaveDistinctStarts [] = Unit
HaveDistinctStarts (o ∷ os) =
    All (λ q. q.scheduled_start ≢ o.scheduled_start) os × HaveDistinctStarts os

HaveDistinctStarts-swap :
    (a b c e : WorkOrder) (os : List WorkOrder)
    → a ≡ e
    → b ≡ c
    → HaveDistinctStarts (a ∷ b ∷ os)
    → HaveDistinctStarts (c ∷ e ∷ os)
HaveDistinctStarts-swap a b c e os x y h =
    let same_c : (o : WorkOrder) → Memᴰ o os → o.scheduled_start ≢ c.scheduled_start = λ o m.
      rw (← y) (All-mem (λ (q : WorkOrder). q.scheduled_start ≢ b.scheduled_start) os h.1.0 m) in
    let same_e : (o : WorkOrder) → Memᴰ o os → o.scheduled_start ≢ e.scheduled_start = λ o m.
      rw (← x) (All-mem (λ (q : WorkOrder). q.scheduled_start ≢ a.scheduled_start) os h.0.1 m) in
    ((rw (← x, ← y) (λ q. h.0.0 (sym q)), All-of_mem _ os same_c), (All-of_mem _ os same_e, h.1.1))

HaveDistinctStarts-perm :
    {os qs : List WorkOrder} → Permᴰ os qs → HaveDistinctStarts os → HaveDistinctStarts qs
HaveDistinctStarts-perm Permᴰ.nil h = h
HaveDistinctStarts-perm (Permᴰ.cons {l₁ = os} {l₂ = qs} e d) h = (
  rw (← e) (All-of_mem _ qs λ a m. All-mem _ os h.0 (mem-perm (Permᴰ.symm d) m)),
  HaveDistinctStarts-perm d h.1,
)
HaveDistinctStarts-perm (Permᴰ.swap {a = a} {b = b} {a' = c} {b' = e} {l = os} x y) h =
    HaveDistinctStarts-swap a b c e os x y h
HaveDistinctStarts-perm (Permᴰ.trans d g) h =
    HaveDistinctStarts-perm g (HaveDistinctStarts-perm d h)

-- Strictly ascending starts.
abbrev IsAscending : List WorkOrder → Type 0
IsAscending [] = Unit
IsAscending (o ∷ os) =
    All (λ q. start_lt o.scheduled_start q.scheduled_start ≡ true) os × IsAscending os

later_mem :
    (o q : WorkOrder) (os qs : List WorkOrder)
    → o ≡ q
    → All (λ r. start_lt o.scheduled_start r.scheduled_start ≡ true) os
    → (a : WorkOrder) → Memᴰ a os
    → Memᴰ a (q ∷ qs)
    → Memᴰ a qs
later_mem o q os qs same h a m (Memᴰ.tail n) = n
later_mem o q os qs same h a m (Memᴰ.head e) =
    let k = All-mem (λ r. start_lt o.scheduled_start r.scheduled_start ≡ true) os h m in
    let l : start_lt o.scheduled_start o.scheduled_start ≡ true = (rw (e, ← same) at k) in
    absurd (start_lt_asym o.scheduled_start o.scheduled_start l l)

same_first :
    (o q : WorkOrder) (os qs : List WorkOrder)
    → All (λ r. start_lt o.scheduled_start r.scheduled_start ≡ true) os
    → All (λ r. start_lt q.scheduled_start r.scheduled_start ≡ true) qs
    → Memᴰ o (q ∷ qs)
    → Memᴰ q (o ∷ os)
    → o ≡ q
same_first o q os qs h k (Memᴰ.head e) n = e
same_first o q os qs h k (Memᴰ.tail m) (Memᴰ.head e) = sym e
same_first o q os qs h k (Memᴰ.tail m) (Memᴰ.tail n) = absurd (
    start_lt_asym o.scheduled_start q.scheduled_start
      (All-mem (λ r. start_lt o.scheduled_start r.scheduled_start ≡ true) os h n)
      (All-mem (λ r. start_lt q.scheduled_start r.scheduled_start ≡ true) qs k m))

-- There is one such list of the same work orders.
IsAscending-unique :
    (os qs : List WorkOrder)
    → IsAscending os
    → IsAscending qs
    → ((a : WorkOrder) → Memᴰ a os → Memᴰ a qs)
    → ((a : WorkOrder) → Memᴰ a qs → Memᴰ a os)
    → os ≡ qs
IsAscending-unique [] [] h k to from = refl
IsAscending-unique [] (q ∷ qs) h k to from = elim (from q (Memᴰ.head refl)) [ ]
IsAscending-unique (o ∷ os) [] h k to from = elim (to o (Memᴰ.head refl)) [ ]
IsAscending-unique (o ∷ os) (q ∷ qs) h k to from =
    let same = same_first o q os qs h.0 k.0 (to o (Memᴰ.head refl)) (from q (Memᴰ.head refl)) in
    let rest =
      IsAscending-unique os qs h.1 k.1
        (λ a m. later_mem o q os qs same h.0 a m (to a (Memᴰ.tail m)))
        (λ a m. later_mem q o qs os (sym same) k.0 a m (from a (Memᴰ.tail m))) in
    ap (λ (rs : List WorkOrder). o ∷ rs) rest ∙ ap (λ (r : WorkOrder). r ∷ qs) same

IsOrdered-IsAscending :
    (ties : WorkOrder → ℕ) (os : List WorkOrder)
    → IsOrdered (ascending_null_then start_of ties) os
    → HaveDistinctStarts os
    → IsAscending os
IsOrdered-IsAscending ties [] h d = tt
IsOrdered-IsAscending ties (o ∷ os) h d = (
  All-of_mem _ os λ q m.
      start_lt-lex_null o.scheduled_start q.scheduled_start (ties o) (ties q)
        (All-mem (λ r. lex_null o.scheduled_start (ties o) r.scheduled_start (ties r) ≡ true) os h.0
          m)
        (All-mem (λ r. r.scheduled_start ≢ o.scheduled_start) os d.0 m),
  IsOrdered-IsAscending ties os h.1 d.1,
)

module _ (p : Database) (w : WorkOrder → Bool) (ties : ℕ → WorkOrder → ℕ) (size : ℕ)
    (s : Store p) where
  -- The items of the first pages, in a row, each page with the order of ties of its own query.
  abbrev pub first_pages : ℕ → List WorkOrderListItem
  first_pages zero = []
  first_pages (suc n) = first_pages n ++ (page_of p w (ties (suc n)) (suc n) size s).items

  abbrev found : ℕ → List WorkOrder
  found n = p.find_many (ascending_null_then start_of (ties n)) w s.work_orders

  abbrev all_found : (n : ℕ) → Permᴰ (found n) (select w (p.rows s.work_orders))
  all_found n = p.find_many_perm (ascending_null_then start_of (ties n)) w s.work_orders

  module _ (d : HaveDistinctStarts (select w (p.rows s.work_orders))) where
    found-IsAscending : (n : ℕ) → IsAscending (found n)
    found-IsAscending n =
        IsOrdered-IsAscending (ties n) (found n)
          (p.find_many_ordered (ascending_null_then start_of (ties n)) w s.work_orders)
          (HaveDistinctStarts-perm (Permᴰ.symm (all_found n)) d)

    -- No two queries differ.
    found-found : (m n : ℕ) → found m ≡ found n
    found-found m n =
        IsAscending-unique (found m) (found n) (found-IsAscending m) (found-IsAscending n)
          (λ a i. mem-perm (Permᴰ.symm (all_found n)) (mem-perm (all_found m) i))
          (λ a i. mem-perm (Permᴰ.symm (all_found m)) (mem-perm (all_found n) i))

    first_pages-take : (n : ℕ) → first_pages n ≡ map (list_item p s) (take (n * size) (found 0))
    unfolding page_of
    first_pages-take zero = (let e : 0 * size ≡ 0 = omega arith in rw e refl)
    first_pages-take (suc n) =
        let e : suc n - 1 ≡ n = omega arith in
        let next : suc n * size ≡ n * size + size = grind arith in
        rw (e, next, first_pages-take n, found-found (suc n) 0, take-drop)
          (sym (
            List.map-append (list_item p s) (take (n * size) (found 0))
              (take size (drop (n * size) (found 0)))))

    -- If no two work orders that match start at the same time and at most one of them has no
    -- start, then the first pages, in a row, are the items of the work orders that match, each
    -- once, as soon as they have room for the total that the first page gives.
    pub first_pages-complete :
        (n : ℕ)
        → (page_of p w (ties 1) 1 size s).total ≤ n * size
        → Permᴰ (first_pages n) (map (list_item p s) (select w (p.rows s.work_orders)))
    unfolding page_of
    first_pages-complete n h =
        let total = length-perm (p.find_many_perm unordered w s.work_orders) in
        let e =
          take_all (n * size) (found 0) (omega (arith, h, length-perm (all_found 0), total)) in
        rw (first_pages-take n, e) (Permᴰ.map (list_item p s) (all_found 0))
