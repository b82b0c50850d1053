-- ===== src/WorkOrders/Parsing.antt =====
-- Reading the list of statuses of a query. modules/work-orders/workOrders.service.ts
use Prim.Native.String.{String, ◌∷◌ as text_cons}
use Prim.Native.Char.{Char}
use fsm_backend.Prelude.{
  select-cong, select-select, ◌||◌, mem-select, arith, select_all, sym, ◌↔◌, ◌≢◌, All-select, not,
  mem-of_select, true, select, Bool, All, Memᴰ, All-of_mem, Bool-cases, inl, inr, str_eq, eq_iff,
  truthy, map, refl, ◌≡◌, List, [], ◌∷◌, some, ap, ◌∙◌, split_commas, trim, before,
}
use fsm_backend.Errors.{ok}
use fsm_backend.WorkOrders.Types.{
  WorkOrderStatus, draft, scheduled, in_progress, completed, cancelled,
}
use fsm_backend.WorkOrders.Filters.{
  has_status, same_status, status_text, parse_statuses, unseen, read_statuses, nonempty_parts,
  read_status,
}

-- The statuses, separated by commas.
abbrev pub listed : WorkOrderStatus → List WorkOrderStatus → String
listed s [] = status_text s
listed s (t ∷ ts) = before (status_text s) (before "," (listed t ts))

split-last : (s : WorkOrderStatus) → split_commas (status_text s) ≡ status_text s ∷ []
unfolding split_commas
split-last draft = refl
split-last scheduled = refl
split-last in_progress = refl
split-last completed = refl
split-last cancelled = refl

split-first :
    (s : WorkOrderStatus) (rest : String)
    → split_commas (before (status_text s) (before "," rest)) ≡ status_text s ∷ split_commas rest
unfolding split_commas
split-first draft rest = refl
split-first scheduled rest = refl
split-first in_progress rest = refl
split-first completed rest = refl
split-first cancelled rest = refl

parts-cons :
    (s : WorkOrderStatus) (ps : List String)
    → nonempty_parts (status_text s ∷ ps) ≡ status_text s ∷ nonempty_parts ps
unfolding nonempty_parts trim
parts-cons draft ps = refl
parts-cons scheduled ps = refl
parts-cons in_progress ps = refl
parts-cons completed ps = refl
parts-cons cancelled ps = refl

read-status_text : (s : WorkOrderStatus) → read_status (status_text s) ≡ some s
unfolding read_status
read-status_text draft = refl
read-status_text scheduled = refl
read-status_text in_progress = refl
read-status_text completed = refl
read-status_text cancelled = refl

-- The parts of the list as written, read back.
parts-listed :
    (s : WorkOrderStatus) (ts : List WorkOrderStatus)
    → nonempty_parts (split_commas (listed s ts)) ≡ map status_text (s ∷ ts)
parts-listed s [] =
    ap nonempty_parts (split-last s) ∙ parts-cons s [] ∙ unfold nonempty_parts in refl
parts-listed s (t ∷ ts) =
    ap nonempty_parts (split-first s (listed t ts))
    ∙ parts-cons s (split_commas (listed t ts))
    ∙ ap (λ (ps : List String). status_text s ∷ ps) (parts-listed t ts)

read-texts : (ss : List WorkOrderStatus) → read_statuses (map status_text ss) ≡ ok ss
unfolding read_statuses
read-texts [] = refl
read-texts (s ∷ ss) = rw (read-status_text s, read-texts ss)

same_iff : (s t : WorkOrderStatus) → (same_status s t ≡ true) ↔ (s ≡ t)
same_iff s t = (λ h. same_of s t h, λ h. rw (← h) (same_self s))
  where
    same_self : (s : WorkOrderStatus) → same_status s s ≡ true
    same_self draft = refl
    same_self scheduled = refl
    same_self in_progress = refl
    same_self completed = refl
    same_self cancelled = refl

    same_of : (s t : WorkOrderStatus) → same_status s t ≡ true → s ≡ t
    same_of draft draft h = refl
    same_of scheduled scheduled h = refl
    same_of in_progress in_progress h = refl
    same_of completed completed h = refl
    same_of cancelled cancelled h = refl
    same_of _ _ h = cc

truthy-cons : (c : Char) (s : String) → truthy (some (text_cons c s)) ≡ some (text_cons c s)
truthy-cons c s = elim (Bool-cases (str_eq (text_cons c s) "")) [
  | inr e ↦ rw e
  | inl e ↦ (let bad = (eq_iff (text_cons c s) "").0 e in cc)
]

truthy-listed :
    (s : WorkOrderStatus) (ts : List WorkOrderStatus)
    → truthy (some (listed s ts)) ≡ some (listed s ts)
truthy-listed draft [] = refl
truthy-listed scheduled [] = refl
truthy-listed in_progress [] = refl
truthy-listed completed [] = refl
truthy-listed cancelled [] = refl
truthy-listed draft (t ∷ ts) = truthy-cons _ _
truthy-listed scheduled (t ∷ ts) = truthy-cons _ _
truthy-listed in_progress (t ∷ ts) = truthy-cons _ _
truthy-listed completed (t ∷ ts) = truthy-cons _ _
truthy-listed cancelled (t ∷ ts) = truthy-cons _ _

-- A list without what repeats an earlier status.
abbrev pub firsts : List WorkOrderStatus → List WorkOrderStatus
firsts [] = []
firsts (s ∷ ts) = s ∷ select (λ t. not (same_status s t)) (firsts ts)

unseen-firsts :
    (seen ts : List WorkOrderStatus)
    → unseen seen ts ≡ select (λ t. not (has_status t seen)) (firsts ts)
unfolding unseen
unseen-firsts seen [] = refl
unseen-firsts seen (s ∷ ts) =
    let both =
      select-select (same_status s) (λ (t : WorkOrderStatus). has_status t seen) (firsts ts) in
    elim (Bool-cases (has_status s seen)) [
      | inr e ↦ rw (e, unseen-firsts (s ∷ seen) ts, both) refl
      | inl e ↦
          rw (e, unseen-firsts seen ts, both)
            (select-cong (λ t. not (has_status t seen))
              (λ t. not (same_status s t || has_status t seen)) (λ t. absorbed s t seen e)
              (firsts ts))
    ]
  where
    absorbed :
        (s t : WorkOrderStatus) (seen : List WorkOrderStatus)
        → has_status s seen ≡ true
        → not (has_status t seen) ≡ not (same_status s t || has_status t seen)
    absorbed s t seen e = elim (Bool-cases (same_status s t)) [
      | inr d ↦ rw d refl
      | inl d ↦
          (let same : s ≡ t = (same_iff s t).0 d in
            (let k : has_status t seen ≡ true = rw (← same) e in rw (d, k) refl))
    ]

-- `firsts` keeps the statuses that there are, each of them once.
firsts-mem : (ts : List WorkOrderStatus) {t : WorkOrderStatus} → Memᴰ t (firsts ts) ↔ Memᴰ t ts
firsts-mem [] = (λ m. m, λ m. m)
firsts-mem (s ∷ ts) {t} = (
  λ m. elim m [
    | Memᴰ.head e ↦ Memᴰ.head e
    | Memᴰ.tail n ↦
        Memᴰ.tail ((firsts-mem ts).0 (mem-of_select (λ t. not (same_status s t)) (firsts ts) n).0)
  ],
  λ m. elim (Bool-cases (same_status s t)) [
    | inl e ↦ Memᴰ.head (sym ((same_iff s t).0 e))
    | inr e ↦ elim m [
      | Memᴰ.head d ↦ Memᴰ.head d
      | Memᴰ.tail n ↦
          Memᴰ.tail
            (mem-select (λ t. not (same_status s t)) (firsts ts) (rw e refl) ((firsts-mem ts).1 n))
    ]
  ],
)

abbrev pub AreDistinct : List WorkOrderStatus → Type 0
AreDistinct [] = Unit
AreDistinct (s ∷ ts) = All (λ t. s ≢ t) ts × AreDistinct ts

AreDistinct-select :
    (w : WorkOrderStatus → Bool) (ts : List WorkOrderStatus)
    → AreDistinct ts
    → AreDistinct (select w ts)
AreDistinct-select w [] d = tt
AreDistinct-select w (t ∷ ts) d = elim (Bool-cases (w t)) [
  | inl e ↦ rw e (All-select _ w ts d.0, AreDistinct-select w ts d.1)
  | inr e ↦ rw e (AreDistinct-select w ts d.1)
]

firsts-AreDistinct : (ts : List WorkOrderStatus) → AreDistinct (firsts ts)
firsts-AreDistinct [] = tt
firsts-AreDistinct (s ∷ ts) = (
  All-of_mem _ _ λ t m same.
      (let kept = (mem-of_select (λ t. not (same_status s t)) (firsts ts) m).1 in
        let e : same_status s t ≡ true = (same_iff s t).1 same in ground (arith, kept, e)),
  AreDistinct-select _ (firsts ts) (firsts-AreDistinct ts),
)

-- A list of statuses written with commas between them is read back as the same statuses in their
-- order, each one kept where it first occurs and removed where it comes again; what is read has no
-- status twice, and has the statuses of the list and no others.
pub parse-listed :
    (s : WorkOrderStatus) (ts : List WorkOrderStatus)
    → (parse_statuses (some (listed s ts)) ≡ ok (some (firsts (s ∷ ts))))
      × AreDistinct (firsts (s ∷ ts))
      × ((t : WorkOrderStatus) → Memᴰ t (firsts (s ∷ ts)) ↔ Memᴰ t (s ∷ ts))
unfolding parse_statuses
parse-listed s ts = (
  rw
      (
        truthy-listed s ts,
        parts-listed s ts,
        read-texts (s ∷ ts),
        unseen-firsts [] (s ∷ ts),
        select_all (firsts (s ∷ ts)),
      )
      refl,
  firsts-AreDistinct (s ∷ ts),
  λ t. firsts-mem (s ∷ ts),
)
