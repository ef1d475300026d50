-- ===== src/Base/Text.antt =====
-- Texts as `std::string`, and `std::map` from texts as an association list in key order.
use Prim.Native.String
use Prim.Native.String.{String}
use mathlib.Core.Bool.{Bool, true, false}
use mathlib.Core.List.{List, [], ◌∷◌}
use mathlib.Core.Option.{Option, none, some}
use text.Mathlib.Text.{◌==◌ as str_eq, is_lt}
use xp_wellys_devfr_atc.Base.Tests.{if◌then◌else◌}

-- `a == b` on `std::string`.
abbrev pub text_eq : String → String → Bool
text_eq s t = str_eq s t

-- `s.empty()`.
abbrev pub is_empty : String → Bool
is_empty String.[] = true
is_empty (String.◌∷◌ c s) = false

-- `a + b + …` and repeated `+=`.
abbrev pub concat : List String → String
concat [] = ""
concat (s ∷ ss) = String.◌++◌ s (concat ss)

module _ {ℓ} {V : Type ℓ} where
  -- `m.find(key)`; `none` is `m.end()`.
  abbrev pub lookup : String → List (String × V) → Option V
  lookup key [] = none
  lookup key ((k, v) ∷ m) = if str_eq k key then some v else lookup key m

  -- `m[key] = v`.
  abbrev pub insert : String → V → List (String × V) → List (String × V)
  insert key v [] = (key, v) ∷ []
  insert key v ((k, w) ∷ m) =
      if str_eq k key
      then (k, v) ∷ m
      else if is_lt (String.compare key k)
      then (key, v) ∷ (k, w) ∷ m
      else (k, w) ∷ insert key v m

abbrev pub or_empty : Option String → String
or_empty none = ""
or_empty (some s) = s
