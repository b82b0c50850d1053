-- ===== src/Prelude/Texts.antt =====
-- Texts as the runtime's `split` and `trim` treat them.
use Prim.Native.String.{String, [] as text_nil, ◌∷◌ as text_cons}
use Prim.Native.Char.{Char, code}
use mathlib.Core.Bool.{Bool, true, false, ◌&&◌, ◌||◌}
use mathlib.Core.Option.{Option, none, some}
use mathlib.Core.List.{List, [], ◌∷◌}
use fsm_backend.Prelude.Tests.{◌==◌, leb, if◌then◌else◌}

abbrev pub is_empty : String → Bool
is_empty text_nil = true
is_empty (text_cons c s) = false

-- White space and line terminators.
abbrev pub is_space : Char → Bool
is_space c =
    let n = code c in
    (leb 9 n && leb n 13)
    || n == 32
    || n == 160
    || n == 0x1680
    || (leb 0x2000 n && leb n 0x200a)
    || n == 0x2028
    || n == 0x2029
    || n == 0x202f
    || n == 0x205f
    || n == 0x3000
    || n == 0xfeff

pub trim_start : String → String
trim_start text_nil = text_nil
trim_start (text_cons c s) = let rest = trim_start s in if is_space c then rest else text_cons c s

pub trim_end : String → String
trim_end text_nil = text_nil
trim_end (text_cons c s) =
    let rest = trim_end s in if is_space c && is_empty rest then text_nil else text_cons c rest

unfoldable pub trim : String → String
unfolding trim_start trim_end
trim s = trim_end (trim_start s)

-- A character in front of the first piece.
abbrev pub push : Char → List String → List String
push c [] = text_cons c text_nil ∷ []
push c (p ∷ ps) = text_cons c p ∷ ps

-- `s.split(",")`
unfoldable pub split_commas : String → List String
split_commas text_nil = text_nil ∷ []
split_commas (text_cons c s) =
    let rest = split_commas s in if code c == 44 then text_nil ∷ rest else push c rest

-- One text before another one.
abbrev pub before : String → String → String
before text_nil t = t
before (text_cons c s) t = text_cons c (before s t)

-- `if (s.startsWith(prefix)) … s.slice(prefix.length)`: the rest of a text after a prefix.
abbrev pub after_char : Bool → Option String → Option String
after_char true rest = rest
after_char false rest = none

unfoldable pub strip_prefix : String → String → Option String
strip_prefix text_nil s = some s
strip_prefix (text_cons c p) text_nil = none
strip_prefix (text_cons c p) (text_cons d s) = after_char (code c == code d) (strip_prefix p s)
