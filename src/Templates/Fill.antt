-- ===== src/Templates/Fill.antt =====
-- Filling leaves text without placeholders alone.
use Prim.Native.String
use Prim.Native.Char.{code}
use text.Mathlib.TextLemmas.{cons-append}
use xp_wellys_devfr_atc.Base.{
  ◌≡◌, refl, ap, Bool, true, false, ◌||◌, String, List, [], ◌∷◌, ◌==◌, concat, arith,
}
use xp_wellys_devfr_atc.Templates.{begins_with, replace_from, replace_all, fill}

abbrev pub has_brace : String → Bool
has_brace String.[] = false
has_brace (String.◌∷◌ c s) = (code c == 123) || has_brace s

abbrev opens : String → Bool
opens String.[] = false
opens (String.◌∷◌ c s) = code c == 123

opens-append : (s t : String) → opens s ≡ true → opens (String.◌++◌ s t) ≡ true
opens-append String.[] t h = absurd (ground arith)
opens-append (String.◌∷◌ c s) t h = rw (cons-append c s t) h

no_hit : (slot s : String) → opens slot ≡ true → has_brace s ≡ false → begins_with slot s ≡ false
unfolding begins_with
no_hit String.[] s k h = absurd (ground arith)
no_hit (String.◌∷◌ b rest) String.[] k h = refl
no_hit (String.◌∷◌ b rest) (String.◌∷◌ c s) k h = ground arith

replace_from-plain :
    (slot value s : String)
    → opens slot ≡ true
    → has_brace s ≡ false
    → replace_from slot value 0 s ≡ s
unfolding replace_from
replace_from-plain slot value String.[] k h = refl
replace_from-plain slot value (String.◌∷◌ c s) k h =
    rw (no_hit slot (String.◌∷◌ c s) k h)
      (ap (λ r. String.◌∷◌ c r) (replace_from-plain slot value s k (ground arith)))

-- A text without an opening brace is left as it is, whatever the variables are.
fill-plain :
    (text : String) (vars : List (String × String)) → has_brace text ≡ false → fill text vars ≡ text
unfolding fill replace_all
fill-plain text [] h = refl
fill-plain text ((key, value) ∷ vars) h =
    rw
      (replace_from-plain (concat ("{" ∷ key ∷ "}" ∷ [])) value text
        (opens-append "{" (concat (key ∷ "}" ∷ [])) refl) h)
      (fill-plain text vars h)
