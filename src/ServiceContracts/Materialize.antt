-- ===== src/ServiceContracts/Materialize.antt =====
-- The dates that a materialization stores. modules/service-contracts/serviceContracts.service.ts
use fsm_backend.Prelude.{
  refl, leb→le, Memᴰ, ◌≤◌, ◌<◌, All, All-imp, length, inl, inr, arith, ℕ, String, true, false, ◌≡◌,
  ◌⊎◌, List, [], ◌∷◌, some, str_eq,
}
use fsm_backend.Errors.{Thrown, ok, err}
use fsm_backend.Prisma.{Order, Database, unordered, descending, find_first-cases, insert_new}
use fsm_backend.ServiceContracts.Recurrence.{RecurrenceLibraries}
use fsm_backend.ServiceContracts.Occurrences.{IsAscending, generate-AreNext}
use fsm_backend.ServiceContracts.Types.{
  RuleRow, ServiceContract, GeneratedOccurrence, occurrence_unique, Store, Env,
}
use fsm_backend.ServiceContracts.Service.{contract_not_found, is_contract, ensure_contract}
use fsm_backend.ServiceContracts.Edit.{
  cursor_of, is_occurrence, new_occurrences, store_occurrences,
  materialize_service_contract_occurrences,
}

module _ (p : Database) (org_id contract_id : String) (now : ℕ) (s : Store p) where
  abbrev by_start : Order GeneratedOccurrence
  by_start = descending (λ (o : GeneratedOccurrence). o.starts_at)

  abbrev pub cursor : ℕ
  cursor = cursor_of (p.find_first by_start (is_occurrence org_id contract_id) s.occurrences) now

  -- Dates later than the cursor are later than now and than all dates stored for the contract.
  abbrev pub IsNew : ℕ → Type 0
  IsNew t =
      (now < t)
      × All (λ o. is_occurrence org_id contract_id o ≡ true → o.starts_at < t)
          (p.rows s.occurrences)

  pub later-IsNew : (t : ℕ) → cursor < t → IsNew t
  later-IsNew t h =
      elim (p.find_first_law by_start (is_occurrence org_id contract_id) s.occurrences) [
        | inl (e, none_there) ↦ (
          (rw e at h),
          All-imp (λ o. is_occurrence org_id contract_id o ≡ false)
              (λ o. is_occurrence org_id contract_id o ≡ true → o.starts_at < t)
              (p.rows s.occurrences) (λ o out here. absurd (cc)) none_there,
        )
        | inr (r, e, _, _, top) ↦
            let (k, l) = past_cursor r (rw e at h) in
            (
              k,
              All-imp (λ o. is_occurrence org_id contract_id o ≡ true → by_start.le r o ≡ true)
                  (λ o. is_occurrence org_id contract_id o ≡ true → o.starts_at < t)
                  (p.rows s.occurrences)
                  (λ o le here. (let j = leb→le o.starts_at r.starts_at (le here) in omega arith))
                  top,
            )
      ]
    where
      past_cursor :
          (r : GeneratedOccurrence) → cursor_of (some r) now < t → (now < t) × (r.starts_at < t)
      past_cursor r h = (ground arith, ground arith)

module _ (p : Database) (x : RecurrenceLibraries) where
  abbrev pub occurrences_of : Store p → List GeneratedOccurrence
  occurrences_of s = p.rows s.occurrences

  rows-store_occurrences :
      (env : Env) (org_id contract_id : String) (ts : List ℕ) (s : Store p)
      → (r : List GeneratedOccurrence) × (t : p.Table GeneratedOccurrence) × (store_occurrences p
            env org_id contract_id ts s
          ≡ (ok r, record s { occurrences = t }))
        × (p.rows t
            ≡ insert_new occurrence_unique
                (new_occurrences env org_id contract_id 0 ts)
                (p.rows s.occurrences))
  unfolding store_occurrences new_occurrences
  rows-store_occurrences env org_id contract_id [] s = ([], s.occurrences, refl, refl)
  rows-store_occurrences env org_id contract_id (t ∷ ts) s = (
    _,
    p.create_many occurrence_unique (new_occurrences env org_id contract_id 0 (t ∷ ts))
        s.occurrences,
    refl,
    p.create_many_law occurrence_unique (new_occurrences env org_id contract_id 0 (t ∷ ts))
        s.occurrences,
  )

  -- Materializing a contract's dates throws and changes nothing, or finds the contract in the
  -- organization and changes only the stored occurrences, to which it gives ascending dates, at
  -- most as many as asked for, each later than now and than all dates stored for the contract
  -- before.
  pub materialize-cases :
      (env : Env) (org_id id : String) (count : ℕ) (s : Store p)
      → ((e : Thrown) × (materialize_service_contract_occurrences p x env org_id id count s
            ≡ (err e, s)))
        ⊎ ((contract : ServiceContract) × (ts : List ℕ) × (r : List GeneratedOccurrence)
            × (t : p.Table GeneratedOccurrence) × Memᴰ contract (p.rows s.contracts)
            × (is_contract org_id id contract ≡ true)
            × (length ts ≤ count)
            × IsAscending ts
            × All (IsNew p org_id contract.id env.now s) ts
            × (materialize_service_contract_occurrences p x env org_id id count s
                ≡ (ok r, record s { occurrences = t }))
            × (p.rows t
                ≡ insert_new occurrence_unique
                    (new_occurrences env org_id contract.id 0 ts)
                    (p.rows s.occurrences)))
  unfolding materialize_service_contract_occurrences ensure_contract
  materialize-cases env org_id id count s =
      elim (find_first-cases p unordered (is_contract org_id id) s.contracts) [
        | inl (e, _) ↦ inl (contract_not_found, rw e)
        | inr (contract, e, w, m) ↦
            elim (find_first-cases p unordered
              (λ (r : RuleRow). str_eq r.id contract.recurrence_rule_id) s.rules) [
                | inl (f, _) ↦ inl (contract_not_found, rw (e, f))
                | inr (rule, f, _, _) ↦
                    let at = cursor p org_id contract.id env.now s in
                    elim (generate-AreNext x rule.config at count) [
                      | inl (zero_asked, g) ↦
                          let (r, t, h, q) = rows-store_occurrences env org_id contract.id [] s in
                          inr (contract, [], r, t, m, w, omega arith, tt, tt, rw (e, f, g, h), q)
                      | inr (inl (x, _, g)) ↦ inl (x, rw (e, f, g))
                      | inr (inr (_, ts, _, g, next)) ↦
                          let (r, t, h, q) = rows-store_occurrences env org_id contract.id ts s in
                          inr (
                            contract,
                            ts,
                            r,
                            t,
                            m,
                            w,
                            next.within,
                            next.ascending,
                            All-imp (λ u. (at < u) × _) (IsNew p org_id contract.id env.now s) ts
                                (λ u h. later-IsNew p org_id contract.id env.now s u h.0)
                                next.dates,
                            rw (e, f, g, h),
                            q,
                          )
                    ]
              ]
      ]
