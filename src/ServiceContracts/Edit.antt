-- ===== src/ServiceContracts/Edit.antt =====
-- Changes of service contracts and their dates. modules/service-contracts/serviceContracts.service.ts
use fsm_backend.Prelude.{
  ℕ, suc, ◌==◌, ltb, String, Bool, true, false, ◌&&◌, Option, none, some, List, [], ◌∷◌, or_else,
  str_eq, truthy, if◌then◌else◌,
}
use fsm_backend.Errors.{
  prisma, p2025, Result, ok, err, M, ◌>>=◌, ◌>>◌, return, require, gets, commit, transaction,
}
use fsm_backend.Prisma.{Database, unordered, ascending, descending}
use fsm_backend.ServiceContracts.Recurrence.{
  RecurrenceLibraries, RecurrenceRuleConfig, generate_next_occurrences,
}
use fsm_backend.ServiceContracts.Types.{
  RuleRow, ServiceContract, ContractItem, GeneratedOccurrence, occurrence_unique, Store, Env,
  ItemInput, ContractUpdate,
}
use fsm_backend.ServiceContracts.Service.{
  contract_not_found, ensure_contract, ensure_customer, ensure_location, ensure_work_templates,
  check_rule, map_items, create_items, ContractDetail, shape_contract,
}

-- A location that is given and neither null nor empty.
abbrev pub given_location : Option (Option String) → Option String
given_location none = none
given_location (some l) = truthy l

-- The columns of `data`: null or an empty text disconnects the location.
abbrev pub new_location : Option (Option String) → Option String → Option String
new_location none old = old
new_location (some l) old = truthy l

unfoldable pub update_contract_fields : ContractUpdate → ServiceContract → ServiceContract
update_contract_fields input c = record c {
  customer_id = or_else input.customer_id c.customer_id;
  service_location_id = new_location input.service_location_id c.service_location_id;
  name = or_else input.name c.name;
  description = or_else input.description c.description;
  is_active = or_else input.is_active c.is_active;
}

-- `latest && latest > now ? latest : now`
abbrev pub cursor_of : Option GeneratedOccurrence → ℕ → ℕ
cursor_of none now = now
cursor_of (some o) now = if ltb now o.starts_at then o.starts_at else now

abbrev pub is_occurrence : String → String → GeneratedOccurrence → Bool
is_occurrence org_id contract_id o = str_eq o.org_id org_id && str_eq o.contract_id contract_id

abbrev pub is_one_of : ℕ → List ℕ → Bool
is_one_of t [] = false
is_one_of t (u ∷ us) = if u == t then true else is_one_of t us

unfoldable pub new_occurrences : Env → String → String → ℕ → List ℕ → List GeneratedOccurrence
new_occurrences env org_id contract_id n [] = []
new_occurrences env org_id contract_id n (t ∷ ts) =
    record { id = env.occurrence_id n; org_id = org_id; contract_id = contract_id; starts_at = t }
    ∷ new_occurrences env org_id contract_id (suc n) ts

module _ (p : Database) where
  unfoldable pub check_new_rule :
      RecurrenceLibraries → Option RecurrenceRuleConfig → M (Store p) (Unit {0})
  check_new_rule x none = return tt
  check_new_rule x (some config) = check_rule p x config

  unfoldable pub update_rule : String → Option RecurrenceRuleConfig → M (Store p) (Unit {0})
  update_rule id none s = (ok tt, s)
  update_rule id (some config) s =
      commit s (λ t. record s { rules = t })
        (p.update [] (λ (r : RuleRow). str_eq r.id id) (λ r. record r { config = config }) s.rules)

  -- All the items are replaced if items are given.
  unfoldable pub replace_items :
      Env → String → String → Option (List ItemInput) → M (Store p) (Unit {0})
  replace_items env org_id id none = return tt
  replace_items env org_id id (some items) = do
    λ s. (
      ok tt,
      record s {
        items =
            (p.delete_many (λ (i : ContractItem). str_eq i.contract_id id && str_eq i.org_id org_id)
              s.items).0;
      },
    )
    create_items p (map_items env org_id id 0 items)

  unfoldable pub update_contract_rows :
      Env → String → ServiceContract → ContractUpdate → M (Store p) (Unit {0})
  update_contract_rows env org_id existing input = do
    update_rule existing.recurrence_rule_id input.recurrence
    replace_items env org_id existing.id input.items
    λ s.
        commit s (λ t. record s { contracts = t })
          (p.update [] (λ (c : ServiceContract). str_eq c.id existing.id)
            (update_contract_fields input) s.contracts)

  unfoldable pub update_service_contract :
      RecurrenceLibraries → Env → String → String → ContractUpdate → M (Store p) ContractDetail
  update_service_contract x env org_id id input = do
    existing ← ensure_contract p org_id id
    let customer_id = or_else input.customer_id existing.customer_id
    ensure_customer p org_id customer_id
    ensure_location p org_id customer_id (given_location input.service_location_id)
    ensure_work_templates p org_id (or_else input.items [])
    check_new_rule x input.recurrence
    transaction (update_contract_rows env org_id existing input)
    gets λ s. shape_contract p s (update_contract_fields input existing)

  -- `delete` of the row with an id: P2025 if there is none.
  abbrev pub delete_row : {A : Type 0} → (A → Bool) → p.Table A → Result (p.Table A)
  delete_row w t = let (u, n) = p.delete_many w t in if n == 0 then err (prisma p2025) else ok u

  -- The database deletes the items and the occurrences of a deleted contract (`onDelete: Cascade`).
  unfoldable pub delete_contract_rows : ServiceContract → M (Store p) (Unit {0})
  delete_contract_rows existing = do
    λ s.
        commit s
          (λ t. record s {
            contracts = t;
            items =
                (p.delete_many (λ (i : ContractItem). str_eq i.contract_id existing.id) s.items).0;
            occurrences =
                (p.delete_many (λ (o : GeneratedOccurrence). str_eq o.contract_id existing.id)
                  s.occurrences).0;
          })
          (delete_row (λ (c : ServiceContract). str_eq c.id existing.id) s.contracts)
    λ s.
        commit s (λ t. record s { rules = t })
          (delete_row (λ (r : RuleRow). str_eq r.id existing.recurrence_rule_id) s.rules)

  unfoldable pub delete_service_contract : String → String → M (Store p) (Unit {0})
  delete_service_contract org_id id = do
    existing ← ensure_contract p org_id id
    transaction (delete_contract_rows existing)

  unfoldable pub store_occurrences :
      Env → String → String → List ℕ → M (Store p) (List GeneratedOccurrence)
  store_occurrences env org_id contract_id [] = return []
  store_occurrences env org_id contract_id (t ∷ ts) = do
    λ s. (
      ok tt,
      record s {
        occurrences =
            p.create_many occurrence_unique (new_occurrences env org_id contract_id 0 (t ∷ ts))
              s.occurrences;
      },
    )
    gets λ s.
        p.find_many (ascending (λ (o : GeneratedOccurrence). o.starts_at))
          (λ o. is_occurrence org_id contract_id o && is_one_of o.starts_at (t ∷ ts)) s.occurrences

  -- The rule is read through the contract's foreign key.
  unfoldable pub materialize_service_contract_occurrences :
      RecurrenceLibraries → Env → String → String → ℕ → M (Store p) (List GeneratedOccurrence)
  materialize_service_contract_occurrences x env org_id id count = do
    contract ← ensure_contract p org_id id
    found ← gets λ s.
        p.find_first unordered (λ (r : RuleRow). str_eq r.id contract.recurrence_rule_id) s.rules
    rule ← require found contract_not_found
    latest ← gets λ s.
        p.find_first (descending (λ (o : GeneratedOccurrence). o.starts_at))
          (is_occurrence org_id contract.id) s.occurrences
    occurrences ←
        (λ s. (generate_next_occurrences x rule.config (cursor_of latest env.now) count, s))
    store_occurrences env org_id contract.id occurrences
