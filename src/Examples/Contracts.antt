-- ===== src/Examples/Contracts.antt =====
-- A rule with a date at every time.
use fsm_backend.Prelude.{List, ◌⊎◌, refl, none, some, [], ◌∷◌, ◌≡◌, ◌+◌, ℕ, inr, arith, true}
use fsm_backend.Errors.{ok, err, Thrown}
use fsm_backend.ServiceContracts.Recurrence.{
  collect, parse_until, parse_local_date_time, build_with, RecurrenceLibraries,
  RecurrenceRuleConfig, generate_next_occurrences, build_recurrence_rule,
}
use fsm_backend.ServiceContracts.Occurrences.{AreNext, generate-AreNext}

abbrev pub libraries : RecurrenceLibraries
libraries = record {
  ParsedOptions = Unit;
  RRule = Unit;
  parse_string = λ text. some tt;
  from_iso = λ value zone. some 0;
  new_rule = λ options start until. tt;
  occurs = λ rule t. true;
  next_after = λ rule t. some (t + 1);
  next_after_law = λ rule t. inr (t + 1, refl, omega arith, refl, λ v l k. absurd (omega arith));
}

abbrev pub config : RecurrenceRuleConfig
config = record {
  rrule = "FREQ=SECONDLY";
  dtstart_local = "2025-01-01T00:00:00";
  time_zone = "Europe/Rome";
  until_local = none;
}

-- The three dates after the sixth.
three_dates : generate_next_occurrences libraries config 6 3 ≡ ok (7 ∷ 8 ∷ 9 ∷ [])
unfolding generate_next_occurrences build_recurrence_rule build_with parse_local_date_time
    parse_until collect
three_dates = refl

generate-AreNext_example :
    (Path ℕ 3 0 × (generate_next_occurrences libraries config 6 3 ≡ ok []))
    ⊎ ((e : Thrown) × (build_recurrence_rule libraries config ≡ err e)
        × (generate_next_occurrences libraries config 6 3 ≡ err e))
    ⊎ ((rule : libraries.RRule) × (ts : List ℕ) × (build_recurrence_rule libraries config ≡ ok rule)
        × (generate_next_occurrences libraries config 6 3 ≡ ok ts)
        × AreNext libraries rule 6 3 ts)
generate-AreNext_example = generate-AreNext libraries config 6 3
