-- ===== src/Organizations/Slug.antt =====
-- The slug of an organization's name. modules/organizations/organizations.service.ts
use Prim.Native.String.{String, [] as text_nil, ◌∷◌ as text_cons}
use Prim.Native.Char.{Char, code}
use fsm_backend.Prelude.{
  Bool, true, false, ◌&&◌, ◌||◌, ◌==◌, leb, trim, is_empty, before, if◌then◌else◌,
}

-- `[a-z0-9]`
abbrev pub is_slug_char : Char → Bool
is_slug_char c = let n = code c in (leb 97 n && leb n 122) || (leb 48 n && leb n 57)

-- `.replace(/[^a-z0-9]+/g, "-")`: the first character of a run becomes a dash, the others are dropped.
unfoldable pub replace_runs : Bool → String → String
replace_runs in_run text_nil = text_nil
replace_runs in_run (text_cons c s) =
    let kept = text_cons c (replace_runs false s) in
    let run = replace_runs true s in
    if is_slug_char c then kept else if in_run then run else before "-" run

abbrev pub is_dash : Char → Bool
is_dash c = code c == 45

-- `.replace(/^-+|-+$/g, "")`
unfoldable pub strip_first_dashes : String → String
strip_first_dashes text_nil = text_nil
strip_first_dashes (text_cons c s) =
    let rest = strip_first_dashes s in if is_dash c then rest else text_cons c s

unfoldable pub strip_last_dashes : String → String
strip_last_dashes text_nil = text_nil
strip_last_dashes (text_cons c s) =
    let rest = strip_last_dashes s in
    if is_dash c && is_empty rest then text_nil else text_cons c rest

-- `slugBase`; the runtime's `toLowerCase` is given.
unfoldable pub slug_base : (String → String) → String → String
slug_base to_lower_case name =
    let normalized =
      strip_last_dashes (strip_first_dashes (replace_runs false (to_lower_case (trim name)))) in
    if is_empty normalized then "org" else normalized
