-- ===== src/ServiceContracts/Service.antt =====
-- Service contracts. modules/service-contracts/serviceContracts.service.ts
use fsm_backend.Prelude.{
  ℕ, suc, ◌-◌, ◌*◌, ◌==◌, String, Bool, true, false, not, ◌&&◌, Option, none, some, List, [], ◌∷◌,
  map, length, elem, distinct, or_else, opt_eq, str_eq, truthy, if◌then◌else◌,
}
use fsm_backend.Errors.{
  Result, Thrown, app, ok, err, M, ◌>>=◌, ◌>>◌, return, require, guard, gets, commit, transaction,
}
use fsm_backend.Prisma.{
  Database, unordered, ascending, id_unique, create_all, count_rows, find_page,
}
use fsm_backend.ServiceContracts.Recurrence.{
  RecurrenceLibraries, RecurrenceRuleConfig, build_recurrence_rule,
}
use fsm_backend.ServiceContracts.Types.{
  Customer, ServiceLocation, WorkTemplate, RuleRow, ServiceContract, ContractItem, Store, Env,
  TextRules, ContractsQuery, ItemInput, ContractInput,
}

abbrev pub contract_not_found : Thrown
contract_not_found = app (record {
  message = "Service contract not found";
  status_code = 404;
  code = "SERVICE_CONTRACT_NOT_FOUND";
})

abbrev pub customer_not_found : Thrown
customer_not_found =
    app (record { message = "Customer not found"; status_code = 404; code = "CUSTOMER_NOT_FOUND" })

abbrev pub service_location_not_found : Thrown
service_location_not_found = app (record {
  message = "Service location not found";
  status_code = 404;
  code = "SERVICE_LOCATION_NOT_FOUND";
})

abbrev pub work_template_not_found : Thrown
work_template_not_found = app (record {
  message = "Work template not found";
  status_code = 404;
  code = "WORK_TEMPLATE_NOT_FOUND";
})

-- `where: { id, orgId }`
abbrev pub is_contract : String → String → ServiceContract → Bool
is_contract org_id id c = str_eq c.id id && str_eq c.org_id org_id

abbrev pub is_customer : String → String → Customer → Bool
is_customer org_id id c = str_eq c.id id && opt_eq c.org_id (some org_id)

abbrev pub is_location : String → String → String → ServiceLocation → Bool
is_location org_id customer_id id l =
    str_eq l.id id && (opt_eq l.org_id (some org_id) && str_eq l.customer_id customer_id)

-- The templates that items name; a missing, null or empty id names none.
abbrev pub with_template : Option String → List String → List String
with_template none ids = ids
with_template (some id) ids = id ∷ ids

unfoldable pub template_ids : List ItemInput → List String
template_ids [] = []
template_ids (i ∷ is) = with_template (truthy i.work_template_id) (template_ids is)

-- `mapItemInput`, with the contract and the place of the item.
abbrev pub map_item_input : Env → String → String → ℕ → ItemInput → ContractItem
map_item_input env org_id contract_id n i = record {
  id = env.item_id n;
  org_id = org_id;
  contract_id = contract_id;
  work_template_id = i.work_template_id;
  title = i.title;
  description = i.description;
  quantity = or_else i.quantity 1;
  unit_price_cents = i.unit_price_cents;
  created_at = env.now;
}

unfoldable pub map_items : Env → String → String → ℕ → List ItemInput → List ContractItem
map_items env org_id contract_id n [] = []
map_items env org_id contract_id n (i ∷ is) =
    map_item_input env org_id contract_id n i ∷ map_items env org_id contract_id (suc n) is

unfoldable pub new_contract : Env → String → ContractInput → ServiceContract
new_contract env org_id input = record {
  id = env.new_id;
  org_id = org_id;
  customer_id = input.customer_id;
  service_location_id = input.service_location_id;
  recurrence_rule_id = env.rule_id;
  name = input.name;
  description = input.description;
  is_active = or_else input.is_active true;
  created_at = env.now;
}

-- A contract with its related rows, as the `select` of the service has it.
pub record ContractDetail : Type 0 where
  pub contract : ServiceContract
  pub customer : Option Customer
  pub service_location : Option ServiceLocation
  pub recurrence : Option RuleRow
  pub items : List ContractItem

pub record ContractPage : Type 0 where
  pub items : List ContractDetail
  pub page : ℕ
  pub page_size : ℕ
  pub total : ℕ

module _ (p : Database) where
  unfoldable pub ensure_customer : String → String → M (Store p) Customer
  ensure_customer org_id customer_id = do
    found ← gets λ s. p.find_first unordered (is_customer org_id customer_id) s.customers
    require found customer_not_found

  -- `if (input.serviceLocationId) await ensureServiceLocation(…)`
  unfoldable pub ensure_location : String → String → Option String → M (Store p) (Unit {0})
  ensure_location org_id customer_id none = return tt
  ensure_location org_id customer_id (some id) = do
    found ← gets λ s. p.find_first unordered (is_location org_id customer_id id) s.locations
    require found service_location_not_found
    return tt

  unfoldable pub ensure_work_templates : String → List ItemInput → M (Store p) (Unit {0})
  ensure_work_templates org_id items =
      let unique_ids = distinct (template_ids items) in
      if length unique_ids == 0 then return tt else do
        count ← gets λ s.
            count_rows p (λ (t : WorkTemplate). str_eq t.org_id org_id && elem t.id unique_ids)
              s.templates
        guard (count == length unique_ids) work_template_not_found

  abbrev pub location_of : Store p → Option String → Option ServiceLocation
  location_of s none = none
  location_of s (some id) = p.find_first unordered (λ l. str_eq l.id id) s.locations

  unfoldable pub shape_contract : Store p → ServiceContract → ContractDetail
  shape_contract s c = record {
    contract = c;
    customer = p.find_first unordered (λ r. str_eq r.id c.customer_id) s.customers;
    service_location = location_of s c.service_location_id;
    recurrence = p.find_first unordered (λ r. str_eq r.id c.recurrence_rule_id) s.rules;
    items = p.find_many (ascending (λ i. i.created_at)) (λ i. str_eq i.contract_id c.id) s.items;
  }

  abbrev pub name_matches : TextRules → Option String → ServiceContract → Bool
  name_matches x none c = true
  name_matches x (some q) c = x.contains_insensitive q c.name

  abbrev pub activity_matches : Option Bool → ServiceContract → Bool
  activity_matches none c = true
  activity_matches (some true) c = c.is_active
  activity_matches (some false) c = not c.is_active

  -- The source leaves the items of the contracts out of a list.
  unfoldable pub list_service_contracts :
      TextRules → String → ContractsQuery → Store p → ContractPage
  list_service_contracts x org_id query s =
      let w : ServiceContract → Bool = λ c.
        str_eq c.org_id org_id
        && (name_matches x (truthy query.q) c && activity_matches query.is_active c) in
      record {
        items =
            map (λ c. record (shape_contract s c) { items = [] })
              (find_page p x.by_name w ((query.page - 1) * query.page_size) query.page_size
                s.contracts);
        page = query.page;
        page_size = query.page_size;
        total = count_rows p w s.contracts;
      }

  unfoldable pub ensure_contract : String → String → M (Store p) ServiceContract
  ensure_contract org_id id = do
    found ← gets λ s. p.find_first unordered (is_contract org_id id) s.contracts
    require found contract_not_found

  unfoldable pub get_service_contract : String → String → M (Store p) ContractDetail
  get_service_contract org_id id = do
    contract ← ensure_contract org_id id
    gets λ s. shape_contract s contract

  -- `buildRecurrenceRule(…)` for its errors
  abbrev pub without_error : {A : Type 0} → Result A → M (Store p) (Unit {0})
  without_error (ok a) s = (ok tt, s)
  without_error (err e) s = (err e, s)

  abbrev pub check_rule : RecurrenceLibraries → RecurrenceRuleConfig → M (Store p) (Unit {0})
  check_rule x config = without_error (build_recurrence_rule x config)

  unfoldable pub create_items : List ContractItem → M (Store p) (Unit {0})
  create_items rows s =
      commit s (λ t. record s { items = t }) (create_all p (id_unique (λ i. i.id)) rows s.items)

  unfoldable pub create_contract_rows : Env → String → ContractInput → M (Store p) (Unit {0})
  create_contract_rows env org_id input = do
    λ s.
        commit s (λ t. record s { rules = t })
          (p.create (id_unique (λ r. r.id))
            (record { id = env.rule_id; org_id = org_id; config = input.recurrence }) s.rules)
    λ s.
        commit s (λ t. record s { contracts = t })
          (p.create (id_unique (λ c. c.id)) (new_contract env org_id input) s.contracts)
    create_items (map_items env org_id env.new_id 0 (or_else input.items []))

  unfoldable pub create_service_contract :
      RecurrenceLibraries → Env → String → ContractInput → M (Store p) ContractDetail
  create_service_contract x env org_id input = do
    ensure_customer org_id input.customer_id
    ensure_location org_id input.customer_id (truthy input.service_location_id)
    ensure_work_templates org_id (or_else input.items [])
    check_rule x input.recurrence
    transaction (create_contract_rows env org_id input)
    gets λ s. shape_contract s (new_contract env org_id input)
