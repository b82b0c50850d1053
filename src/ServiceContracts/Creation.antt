-- ===== src/ServiceContracts/Creation.antt =====
-- What the creation of a service contract writes. modules/service-contracts/serviceContracts.service.ts
use fsm_backend.Prelude.{Memᴰ, String, true, some, or_else, truthy, List, [], ◌∷◌, ◌++◌, ◌≡◌}
use fsm_backend.Errors.{ok}
use fsm_backend.Prisma.{Database}
use fsm_backend.ServiceContracts.Recurrence.{RecurrenceLibraries, build_recurrence_rule}
use fsm_backend.ServiceContracts.Types.{
  Customer, ServiceLocation, RuleRow, ContractItem, Store, Env, ContractInput,
}
use fsm_backend.ServiceContracts.Service.{is_customer, is_location, new_contract, map_items}
use fsm_backend.ServiceContracts.Templates.{HasTemplates}

module _ (p : Database) (x : RecurrenceLibraries) (env : Env) (org_id : String)
    (input : ContractInput) (s : Store p) where
  abbrev new_rule : RuleRow
  new_rule = record { id = env.rule_id; org_id = org_id; config = input.recurrence }

  abbrev new_items : List ContractItem
  new_items = map_items env org_id env.new_id 0 (or_else input.items [])

  -- The rows of a new contract: its rule, the contract itself and its items.
  pub record IsWritten (t : Store p) : Type 0 where
    pub rules : p.rows t.rules ≡ p.rows s.rules ++ new_rule ∷ []
    pub contracts : p.rows t.contracts ≡ p.rows s.contracts ++ new_contract env org_id input ∷ []
    pub items : p.rows t.items ≡ p.rows s.items ++ new_items
    pub occurrences : t.occurrences ≡ s.occurrences

  -- What was checked before the rows were written.
  pub record IsChecked : Type 1 where
    pub customer : Customer
    pub customer_in : Memᴰ customer (p.rows s.customers)
    pub is_own : is_customer org_id input.customer_id customer ≡ true
    pub has_location :
        (id : String)
        → truthy input.service_location_id ≡ some id
        → (l : ServiceLocation) × Memᴰ l (p.rows s.locations)
          × (is_location org_id input.customer_id id l ≡ true)
    pub has_templates : HasTemplates p org_id s (or_else input.items [])
    pub rule : x.RRule
    pub builds : build_recurrence_rule x input.recurrence ≡ ok rule
