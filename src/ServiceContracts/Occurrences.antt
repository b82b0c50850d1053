-- ===== src/ServiceContracts/Occurrences.antt =====
-- The dates generated are the next ones. modules/service-contracts/recurrence.service.ts
use fsm_backend.Prelude.{
  refl, suc, ap, ltb→lt, Memᴰ, ◌≤◌, All-imp, ==_iff, All, length, inl, inr, Bool-cases, arith, ℕ,
  zero, suc, ◌==◌, ◌<◌, ltb, true, false, ◌≡◌, ◌⊎◌, List, [], ◌∷◌,
}
use fsm_backend.Errors.{Thrown, ok, err, Result-cases}
use fsm_backend.ServiceContracts.Recurrence.{
  collect, build_recurrence_rule, RecurrenceLibraries, RecurrenceRuleConfig,
  generate_next_occurrences,
}

abbrev pub IsAscending : List ℕ → Type 0
IsAscending [] = Unit
IsAscending (t ∷ ts) = All (λ u. t < u) ts × IsAscending ts

-- A list of times is that of a rule's first dates after a cursor, at most as many as asked for.
pub record AreNext (x : RecurrenceLibraries) (rule : x.RRule) (cursor most : ℕ) (ts : List ℕ)
    : Type 0 where
  pub within : length ts ≤ most
  pub ascending : IsAscending ts
  pub dates : All (λ t. (cursor < t) × (x.occurs rule t ≡ true)) ts
  pub complete :
      (v : ℕ)
      → cursor < v
      → x.occurs rule v ≡ true
      → Memᴰ v ts ⊎ (length ts ≡ most) × All (λ t. t < v) ts

module _ (x : RecurrenceLibraries) where
  -- The dates from the first one on.
  later_dates :
      (rule : x.RRule) (cursor room u : ℕ)
      → cursor < u
      → ((v : ℕ) → cursor < v → v < u → x.occurs rule v ≡ false)
      → {ts : List ℕ}
      → ((v : ℕ)
          → u < v
          → x.occurs rule v ≡ true
          → Memᴰ v ts ⊎ (length ts ≡ room) × All (λ t. t < v) ts)
      → (v : ℕ) → cursor < v
      → x.occurs rule v ≡ true
      → Memᴰ v (u ∷ ts) ⊎ (length (u ∷ ts) ≡ suc room) × All (λ t. t < v) (u ∷ ts)
  later_dates rule cursor room u first gap {ts} rest v l h = elim (Bool-cases (ltb v u)) [
    | inl before ↦ (let bad = gap v l (ltb→lt v u before) in cc)
    | inr not_before ↦ elim (Bool-cases (v == u)) [
      | inl same ↦ inl (Memᴰ.head ((==_iff v u).0 same))
      | inr other ↦
          let after_u : u < v = ground arith in
          elim (rest v after_u h) [
            | inl m ↦ inl (Memᴰ.tail m)
            | inr (full, past) ↦ inr (ap suc full, (after_u, past))
          ]
    ]
  ]

  collect-AreNext :
      (rule : x.RRule) (cursor room : ℕ)
      → AreNext x rule cursor room (collect x rule (x.next_after rule cursor) room)
  unfolding collect
  collect-AreNext rule cursor zero = elim (x.next_after_law rule cursor) [
    | inl (e, over) ↦ rw e (record {
      within = omega arith;
      ascending = tt;
      dates = tt;
      complete = λ v l h. inr (refl, tt);
    })
    | inr (u, e, _, _, _) ↦ rw e (record {
      within = omega arith;
      ascending = tt;
      dates = tt;
      complete = λ v l h. inr (refl, tt);
    })
  ]
  collect-AreNext rule cursor (suc room) = elim (x.next_after_law rule cursor) [
    | inl (e, over) ↦ rw e (record {
      within = omega arith;
      ascending = tt;
      dates = tt;
      complete = λ v l h. (let bad = over v l in cc);
    })
    | inr (u, e, later, at, gap) ↦
        let rest = collect-AreNext rule u room in
        let ts = collect x rule (x.next_after rule u) room in
        rw e (record {
          within = omega (arith, rest.within);
          ascending = (
            All-imp (λ t. (u < t) × (x.occurs rule t ≡ true)) (λ t. u < t) ts (λ t h. h.0)
                rest.dates,
            rest.ascending,
          );
          dates = (
            (later, at),
            All-imp (λ t. (u < t) × (x.occurs rule t ≡ true))
                (λ t. (cursor < t) × (x.occurs rule t ≡ true)) ts (λ t h. (omega (arith, h.0), h.1))
                rest.dates,
          );
          complete = later_dates rule cursor room u later gap rest.complete;
        })
  ]

  -- generateNextOccurrences returns no dates if none are asked for, the error of a rule that
  -- cannot be built, or the rule's first dates after the cursor: ascending, at most as many as
  -- asked for, and missing a date only if it is full and the date comes after all of them.
  pub generate-AreNext :
      (config : RecurrenceRuleConfig) (cursor count : ℕ)
      → ((count ≡ 0) × (generate_next_occurrences x config cursor count ≡ ok []))
        ⊎ ((e : Thrown) × (build_recurrence_rule x config ≡ err e)
            × (generate_next_occurrences x config cursor count ≡ err e))
        ⊎ ((rule : x.RRule) × (ts : List ℕ) × (build_recurrence_rule x config ≡ ok rule)
            × (generate_next_occurrences x config cursor count ≡ ok ts)
            × AreNext x rule cursor count ts)
  unfolding generate_next_occurrences
  generate-AreNext config cursor count = elim (Bool-cases (count == 0)) [
    | inl none_asked ↦ inl ((==_iff count 0).0 none_asked, rw none_asked)
    | inr some_asked ↦ elim (Result-cases (build_recurrence_rule x config)) [
      | inr (e, bad) ↦ inr (inl (e, bad, rw (some_asked, bad)))
      | inl (rule, good) ↦ inr (
          inr (
            rule,
            collect x rule (x.next_after rule cursor) count,
            good,
            rw (some_asked, good),
            collect-AreNext rule cursor count,
          ))
    ]
  ]
