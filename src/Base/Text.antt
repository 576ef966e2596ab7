-- ===== src/Base/Text.antt =====
-- Text: the functions of Go's `strings` that the program calls, and the order of strings. A Go
-- string is read as a text of code points; the order of code points is that of UTF-8 bytes.
use Prim.Native.Char.{code}
use Prim.Native.Nat.{Ordering}
use Prim.Native.String
use Prim.Native.String.{String}
use mathlib.Core.Bool.{Bool, true, false}
use mathlib.Core.Option.{Option, none, some}
use text.Mathlib.Text.{◌==◌}
use goalrail.Base.Tests.{nat_eq, if◌then◌else◌}

abbrev pub concat : String → String → String
concat s t = String.◌++◌ s t

abbrev pub strip_prefix : String → String → Option String
strip_prefix s String.[] = some s
strip_prefix String.[] (String.◌∷◌ c p) = none
strip_prefix (String.◌∷◌ d s) (String.◌∷◌ c p) =
    if nat_eq (code c) (code d) then strip_prefix s p else none

-- `strings.TrimPrefix`
abbrev pub trim_prefix : String → String → String
trim_prefix s p = elim (strip_prefix s p) [ none ↦ s | some rest ↦ rest ]

-- `strings.TrimSuffix`
abbrev pub trim_suffix : String → String → String
trim_suffix String.[] p = String.[]
trim_suffix (String.◌∷◌ c s) p =
    if String.◌∷◌ c s == p then String.[] else String.◌∷◌ c (trim_suffix s p)

-- `s < t`
abbrev pub text_lt : String → String → Bool
text_lt s t = elim (String.compare s t) [ Ordering.lt ↦ true | _ ↦ false ]
