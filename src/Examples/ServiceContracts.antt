-- ===== src/Examples/ServiceContracts.antt =====
-- A customer with a contract whose rule has a date at every time.
use fsm_backend.Prelude.{
  distinct, ◌==◌, if◌then◌else◌, ◌≡◌, ◌⊎◌, ◌≤◌, refl, none, some, [], ◌∷◌, Memᴰ, All, ℕ, String,
  true, List, length,
}
use fsm_backend.Memory.{memory}
use fsm_backend.Errors.{Thrown, ok, err}
use fsm_backend.Prisma.{insert_new}
use fsm_backend.Examples.Contracts.{libraries, config}
use fsm_backend.ServiceContracts.Types.{
  ServiceContract, GeneratedOccurrence, occurrence_unique, Store, Env, ContractInput,
  ContractUpdate,
}
use fsm_backend.ServiceContracts.Recurrence.{
  generate_next_occurrences, build_recurrence_rule, build_with, parse_local_date_time, parse_until,
  collect,
}
use fsm_backend.ServiceContracts.Service.{
  ensure_contract, ensure_customer, ensure_location, ensure_work_templates, template_ids,
  is_contract,
}
use fsm_backend.ServiceContracts.Edit.{
  store_occurrences, check_new_rule, update_contract_rows, update_rule, replace_items,
  update_contract_fields, new_occurrences, update_service_contract,
  materialize_service_contract_occurrences,
}
use fsm_backend.ServiceContracts.Occurrences.{IsAscending}
use fsm_backend.ServiceContracts.Materialize.{IsNew, materialize-cases}

abbrev env : Env
env = record {
  now = 100;
  new_id = "contract-2";
  rule_id = "rule-2";
  item_id = λ n. "item-1";
  occurrence_id = λ n. if n == 0 then "o-2" else "o-3";
}

abbrev contract : ServiceContract
contract = record {
  id = "contract-1";
  org_id = "org-1";
  customer_id = "customer-1";
  service_location_id = some "location-1";
  recurrence_rule_id = "rule-1";
  name = "Boiler";
  description = none;
  is_active = true;
  created_at = 1;
}

abbrev occurrence : String → ℕ → GeneratedOccurrence
occurrence id t = record { id = id; org_id = "org-1"; contract_id = "contract-1"; starts_at = t }

abbrev store : Store memory
unfolding memory
store = record {
  customers =
      record { id = "customer-1"; org_id = some "org-1"; name = "Ada" }
      ∷ record { id = "customer-2"; org_id = some "org-1"; name = "Bea" }
      ∷ [];
  locations =
      record {
        id = "location-1";
        org_id = some "org-1";
        customer_id = "customer-1";
        label = none;
        address_line1 = "1 Main St";
        address_line2 = none;
        city = "Rome";
        province = none;
        postal_code = none;
        country = none;
      }
      ∷ [];
  templates = record { id = "template-1"; org_id = "org-1" } ∷ [];
  rules = record { id = "rule-1"; org_id = "org-1"; config = config } ∷ [];
  contracts = contract ∷ [];
  items = [];
  occurrences = occurrence "o-1" 105 ∷ [];
}

-- The dates after the last one stored, which is still to come.
materialize_works :
    (materialize_service_contract_occurrences memory libraries env "org-1" "contract-1" 2 store).0
    ≡ ok (occurrence "o-2" 106 ∷ occurrence "o-3" 107 ∷ [])
unfolding memory materialize_service_contract_occurrences ensure_contract generate_next_occurrences
    build_recurrence_rule build_with parse_local_date_time parse_until store_occurrences collect
    new_occurrences
materialize_works = refl

materialize-cases_example :
    ((e : Thrown) × (materialize_service_contract_occurrences memory libraries env "org-1"
          "contract-1" 2 store
        ≡ (err e, store)))
    ⊎ ((c : ServiceContract) × (ts : List ℕ) × (r : List GeneratedOccurrence) × (t : memory.Table
          GeneratedOccurrence)
        × Memᴰ c (memory.rows store.contracts)
        × (is_contract "org-1" "contract-1" c ≡ true)
        × (length ts ≤ 2)
        × IsAscending ts
        × All (IsNew memory "org-1" c.id 100 store) ts
        × (materialize_service_contract_occurrences memory libraries env "org-1" "contract-1" 2
              store
            ≡ (ok r, record store { occurrences = t }))
        × (memory.rows t
            ≡ insert_new occurrence_unique
                (new_occurrences env "org-1" c.id 0 ts)
                (memory.rows store.occurrences)))
materialize-cases_example = materialize-cases memory libraries env "org-1" "contract-1" 2 store

abbrev input : ContractInput
input = record {
  customer_id = "customer-1";
  service_location_id = some "location-1";
  name = "Pump";
  description = none;
  is_active = none;
  recurrence = config;
  items = some (
      record {
        title = "Check";
        description = none;
        quantity = none;
        unit_price_cents = none;
        work_template_id = some "template-1";
      }
      ∷ []);
}

-- A change of the customer alone keeps the location, which is of the customer before.
abbrev other_customer : ContractUpdate
other_customer = record {
  customer_id = some "customer-2";
  service_location_id = none;
  name = none;
  description = none;
  is_active = none;
  recurrence = none;
  items = none;
}

other_customer_keeps_location :
    (memory.rows
      (update_service_contract memory libraries env "org-1" "contract-1" other_customer
        store).1.contracts)
    ≡ record contract { customer_id = "customer-2" } ∷ []
unfolding memory update_service_contract ensure_contract ensure_customer ensure_location
    ensure_work_templates distinct template_ids check_new_rule update_contract_rows update_rule
    replace_items update_contract_fields
other_customer_keeps_location = refl
