-- ===== src/ServiceContracts/Recurrence.antt =====
-- Recurrence rules and their next dates. modules/service-contracts/recurrence.service.ts
use fsm_backend.Prelude.{
  ℕ, zero, suc, ◌==◌, ◌<◌, ltb, String, Bool, true, false, Option, none, some, truthy, ◌≡◌, ◌⊎◌,
  List, [], ◌∷◌, if◌then◌else◌, str_eq,
}
use fsm_backend.Errors.{Thrown, app, Result, ok, err}

-- `RecurrenceRuleConfig`; an `untilLocal` of null is left out.
pub record RecurrenceRuleConfig : Type 0 where
  pub rrule : String
  pub dtstart_local : String
  pub time_zone : String
  pub until_local : Option String

-- What the module takes from rrule and luxon. `occurs` says which times are dates of a rule, for the
-- law: `after(t, false)` is the first date later than `t`, or null if there is none.
pub record RecurrenceLibraries : Type 1 where
  pub ParsedOptions : Type 0
  pub RRule : Type 0
  pub parse_string : String → Option ParsedOptions
  pub from_iso : String → String → Option ℕ
  pub new_rule : ParsedOptions → ℕ → Option ℕ → RRule
  pub occurs : RRule → ℕ → Bool
  pub next_after : RRule → ℕ → Option ℕ
  pub next_after_law :
      (r : RRule) (t : ℕ)
      → ((next_after r t ≡ none) × ((u : ℕ) → t < u → occurs r u ≡ false))
        ⊎ ((u : ℕ) × (next_after r t ≡ some u)
            × (t < u)
            × (occurs r u ≡ true)
            × ((v : ℕ) → t < v → v < u → occurs r v ≡ false))

abbrev pub invalid_recurrence : String → String → Thrown
invalid_recurrence message code = app (record { message = message; status_code = 400; code = code })

abbrev pub bind : {A B : Type 0} → Result A → (A → Result B) → Result B
bind (ok a) f = f a
bind (err e) f = err e

module _ (x : RecurrenceLibraries) where
  parsed : String → Option ℕ → Result ℕ
  parsed message none = err (invalid_recurrence message "RECURRENCE_INVALID_DATETIME")
  parsed message (some t) = ok t

  -- The label's message is passed whole: `${label} must be a valid ISO datetime`.
  unfoldable pub parse_local_date_time : String → String → String → Result ℕ
  unfolding parsed
  parse_local_date_time value time_zone message = parsed message (x.from_iso value time_zone)

  unfoldable pub parse_until : Option String → String → Result (Option ℕ)
  parse_until none time_zone = ok none
  parse_until (some value) time_zone =
      bind (parse_local_date_time value time_zone "untilLocal must be a valid ISO datetime")
        (λ t. ok (some t))

  -- `until && until < dtstart`
  abbrev pub ends_before : Option ℕ → ℕ → Bool
  ends_before none start = false
  ends_before (some t) start = ltb t start

  unfoldable pub build_with : x.ParsedOptions → RecurrenceRuleConfig → Result x.RRule
  build_with options config =
      if str_eq config.time_zone ""
      then err (invalid_recurrence "timeZone is required" "RECURRENCE_MISSING_TIMEZONE")
      else bind
          (parse_local_date_time config.dtstart_local config.time_zone
            "dtstartLocal must be a valid ISO datetime")
          (λ dtstart. bind (parse_until (truthy config.until_local) config.time_zone) (λ until.
            if ends_before until dtstart
            then err (
                invalid_recurrence "untilLocal must be on or after dtstartLocal"
                  "RECURRENCE_UNTIL_BEFORE_START")
            else ok (x.new_rule options dtstart until)))

  unfoldable pub build_recurrence_rule : RecurrenceRuleConfig → Result x.RRule
  build_recurrence_rule config = elim (x.parse_string config.rrule) [
    | none ↦
        err (invalid_recurrence "RRULE must be a valid RFC 5545 string" "RECURRENCE_INVALID_RRULE")
    | some options ↦ build_with options config
  ]

  -- The loop: `next`, and how many more results there is room for.
  unfoldable pub collect : x.RRule → Option ℕ → ℕ → List ℕ
  collect rule none room = []
  collect rule (some next) zero = []
  collect rule (some next) (suc room) = next ∷ collect rule (x.next_after rule next) room

  unfoldable pub generate_next_occurrences : RecurrenceRuleConfig → ℕ → ℕ → Result (List ℕ)
  generate_next_occurrences config cursor count =
      if count == 0
      then ok []
      else bind (build_recurrence_rule config)
          (λ rule. ok (collect rule (x.next_after rule cursor) count))
