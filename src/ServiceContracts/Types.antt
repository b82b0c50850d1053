-- ===== src/ServiceContracts/Types.antt =====
-- The tables of service contracts, and the inputs of their requests. prisma/schema.prisma,
-- modules/service-contracts/dto/serviceContracts.dto.ts
use fsm_backend.Prelude.{ℕ, ◌==◌, String, Bool, Option, List, [], ◌∷◌, ◌&&◌, str_eq}
use fsm_backend.Prisma.{Unique, Database, Order}
use fsm_backend.ServiceContracts.Recurrence.{RecurrenceRuleConfig}

pub record Customer : Type 0 where
  pub id : String
  pub org_id : Option String
  pub name : String

pub record ServiceLocation : Type 0 where
  pub id : String
  pub org_id : Option String
  pub customer_id : String
  pub label : Option String
  pub address_line1 : String
  pub address_line2 : Option String
  pub city : String
  pub province : Option String
  pub postal_code : Option String
  pub country : Option String

pub record WorkTemplate : Type 0 where
  pub id : String
  pub org_id : String

-- `RecurrenceRule`, its four texts as the configuration that they are.
pub record RuleRow : Type 0 where
  pub id : String
  pub org_id : String
  pub config : RecurrenceRuleConfig

pub record ServiceContract : Type 0 where
  pub id : String
  pub org_id : String
  pub customer_id : String
  pub service_location_id : Option String
  pub recurrence_rule_id : String
  pub name : String
  pub description : Option String
  pub is_active : Bool
  pub created_at : ℕ

pub record ContractItem : Type 0 where
  pub id : String
  pub org_id : String
  pub contract_id : String
  pub work_template_id : Option String
  pub title : String
  pub description : Option String
  pub quantity : ℕ
  pub unit_price_cents : Option ℕ
  pub created_at : ℕ

pub record GeneratedOccurrence : Type 0 where
  pub id : String
  pub org_id : String
  pub contract_id : String
  pub starts_at : ℕ

-- The primary key, and `@@unique([orgId, contractId, startsAt])`
abbrev pub occurrence_unique : List (Unique GeneratedOccurrence)
occurrence_unique =
    record { target = "id" ∷ []; clash = λ a b. str_eq a.id b.id }
    ∷ record {
      target = "orgId" ∷ "contractId" ∷ "startsAt" ∷ [];
      clash = λ a b.
          str_eq a.org_id b.org_id
          && (str_eq a.contract_id b.contract_id && a.starts_at == b.starts_at);
    }
    ∷ []

pub record Store (p : Database) : Type 0 where
  pub customers : p.Table Customer
  pub locations : p.Table ServiceLocation
  pub templates : p.Table WorkTemplate
  pub rules : p.Table RuleRow
  pub contracts : p.Table ServiceContract
  pub items : p.Table ContractItem
  pub occurrences : p.Table GeneratedOccurrence

-- The clock, and the ids that the database generates; those of items and occurrences by their place.
pub record Env : Type 0 where
  pub now : ℕ
  pub new_id : String
  pub rule_id : String
  pub item_id : ℕ → String
  pub occurrence_id : ℕ → String

-- How the database compares texts: `contains` with `mode: "insensitive"`, and the order by name.
pub record TextRules : Type 0 where
  pub contains_insensitive : String → String → Bool
  pub by_name : Order ServiceContract

-- `ServiceContractsListQuery`
pub record ContractsQuery : Type 0 where
  pub q : Option String
  pub is_active : Option Bool
  pub page : ℕ
  pub page_size : ℕ

-- `ContractItemInput`; a null counts as missing.
pub record ItemInput : Type 0 where
  pub title : String
  pub description : Option String
  pub quantity : Option ℕ
  pub unit_price_cents : Option ℕ
  pub work_template_id : Option String

-- `ServiceContractCreateInput`
pub record ContractInput : Type 0 where
  pub customer_id : String
  pub service_location_id : Option String
  pub name : String
  pub description : Option String
  pub is_active : Option Bool
  pub recurrence : RecurrenceRuleConfig
  pub items : Option (List ItemInput)

-- `ServiceContractUpdateInput`; where null means something else than a missing value, `some none` is null.
pub record ContractUpdate : Type 0 where
  pub customer_id : Option String
  pub service_location_id : Option (Option String)
  pub name : Option String
  pub description : Option (Option String)
  pub is_active : Option Bool
  pub recurrence : Option RecurrenceRuleConfig
  pub items : Option (List ItemInput)
