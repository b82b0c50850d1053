-- ===== src/Organizations/SlugForm.antt =====
-- The form of a slug. modules/organizations/organizations.service.ts
use Prim.Native.String.{String, [] as text_nil, ◌∷◌ as text_cons}
use fsm_backend.Prelude.{
  both, ◌≡◌, refl, inl, inr, Bool, true, false, ◌&&◌, ◌||◌, Bool-cases, is_empty, trim, arith,
  if◌then◌else◌,
}
use fsm_backend.Organizations.Slug.{
  is_slug_char, is_dash, replace_runs, strip_first_dashes, strip_last_dashes, slug_base,
}

-- Small letters, digits and dashes only.
abbrev pub is_plain : String → Bool
is_plain text_nil = true
is_plain (text_cons c s) = (is_slug_char c || is_dash c) && is_plain s

abbrev pub starts_with_dash : String → Bool
starts_with_dash text_nil = false
starts_with_dash (text_cons c s) = is_dash c

abbrev pub ends_with_dash : String → Bool
ends_with_dash text_nil = false
ends_with_dash (text_cons c s) =
    let rest = ends_with_dash s in if is_empty s then is_dash c else rest

is_plain-replace_runs : (in_run : Bool) (s : String) → is_plain (replace_runs in_run s) ≡ true
unfolding replace_runs
is_plain-replace_runs in_run text_nil = refl
is_plain-replace_runs in_run (text_cons c s) =
    let kept = is_plain-replace_runs false s in
    let run = is_plain-replace_runs true s in
    elim (Bool-cases (is_slug_char c)) [
      | inl e ↦ rw (e, e, kept) refl
      | inr e ↦ elim (Bool-cases in_run) [
        | inl inside ↦ rw (e, inside) run
        | inr first ↦ rw (e, first) run
      ]
    ]

is_plain-strip_first_dashes :
    (s : String) → is_plain s ≡ true → is_plain (strip_first_dashes s) ≡ true
unfolding strip_first_dashes
is_plain-strip_first_dashes text_nil h = refl
is_plain-strip_first_dashes (text_cons c s) h = elim (Bool-cases (is_dash c)) [
  | inl e ↦ rw e (is_plain-strip_first_dashes s (ground arith))
  | inr e ↦ rw e h
]

starts-strip_first_dashes : (s : String) → starts_with_dash (strip_first_dashes s) ≡ false
unfolding strip_first_dashes
starts-strip_first_dashes text_nil = refl
starts-strip_first_dashes (text_cons c s) = elim (Bool-cases (is_dash c)) [
  | inl e ↦ rw e (starts-strip_first_dashes s)
  | inr e ↦ rw (e, e)
]

is_plain-strip_last_dashes :
    (s : String) → is_plain s ≡ true → is_plain (strip_last_dashes s) ≡ true
unfolding strip_last_dashes
is_plain-strip_last_dashes text_nil h = refl
is_plain-strip_last_dashes (text_cons c s) h =
    let (here, later) = (both (is_slug_char c || is_dash c) (is_plain s)).0 h in
    let rest = is_plain-strip_last_dashes s later in
    elim (Bool-cases (is_dash c && is_empty (strip_last_dashes s))) [
      | inl e ↦ rw e refl
      | inr e ↦
          rw e
            ((both (is_slug_char c || is_dash c) (is_plain (strip_last_dashes s))).1 (here, rest))
    ]

starts-strip_last_dashes :
    (s : String) → starts_with_dash s ≡ false → starts_with_dash (strip_last_dashes s) ≡ false
unfolding strip_last_dashes
starts-strip_last_dashes text_nil h = refl
starts-strip_last_dashes (text_cons c s) h =
    elim (Bool-cases (is_dash c && is_empty (strip_last_dashes s))) [
      | inl e ↦ rw e refl
      | inr e ↦ rw e h
    ]

ends-strip_last_dashes : (s : String) → ends_with_dash (strip_last_dashes s) ≡ false
unfolding strip_last_dashes
ends-strip_last_dashes text_nil = refl
ends-strip_last_dashes (text_cons c s) =
    let rest = ends-strip_last_dashes s in
    elim (Bool-cases (is_empty (strip_last_dashes s))) [
      | inl e ↦ elim (Bool-cases (is_dash c)) [ inl d ↦ rw (d, e) refl | inr d ↦ rw (d, e) d ]
      | inr e ↦ elim (Bool-cases (is_dash c)) [ inl d ↦ rw (d, e, e) rest | inr d ↦ rw (d, e) rest ]
    ]

-- The slug of any name, whatever the runtime's lower case does, consists of small letters, digits
-- and dashes, is not empty and neither starts nor ends with a dash.
pub slug_base-is_plain :
    (to_lower_case : String → String) (name : String)
    → (is_plain (slug_base to_lower_case name) ≡ true)
      × (is_empty (slug_base to_lower_case name) ≡ false)
      × (starts_with_dash (slug_base to_lower_case name) ≡ false)
      × (ends_with_dash (slug_base to_lower_case name) ≡ false)
unfolding slug_base
slug_base-is_plain to_lower_case name =
    let runs = replace_runs false (to_lower_case (trim name)) in
    let stripped = strip_first_dashes runs in
    elim (Bool-cases (is_empty (strip_last_dashes stripped))) [
      | inl e ↦ rw e (refl, refl, refl, refl)
      | inr e ↦ rw e (
        is_plain-strip_last_dashes stripped (
            is_plain-strip_first_dashes runs
              (is_plain-replace_runs false (to_lower_case (trim name)))),
        e,
        starts-strip_last_dashes stripped (starts-strip_first_dashes runs),
        ends-strip_last_dashes stripped,
      )
    ]
