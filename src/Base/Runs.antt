-- ===== src/Base/Runs.antt =====
-- Runs of characters as numbers, for the code that walks its text: `std::string` and <cctype> in
-- the C locale.
use Prim.Native.Nat.{ℕ, zero, suc, ◌+◌, pred, Ordering, compare}
use Prim.Native.Char.{Char, char, code, nul, IsScalar}
use Prim.Native.String.{String}
use mathlib.Core.Path.{◌≡◌, refl}
use mathlib.Core.Option.{Option, none, some}
use native.Mathlib.Omega.{arith}
use mathlib.Core.Bool.{Bool, true, false, ◌&&◌, ◌||◌}
use mathlib.Core.List.{List, [], ◌∷◌, ◌++◌, map}
use xp_wellys_devfr_atc.Base.Tests.{leb, ◌==◌, if◌then◌else◌}
use xp_wellys_devfr_atc.Base.Lists.{length}

abbrev pub Run : Type 0
Run = List ℕ

abbrev pub codes : String → Run
codes String.[] = []
codes (String.◌∷◌ c s) = code c ∷ codes s

abbrev pub is_less? : (o : Ordering) → Option (o ≡ Ordering.lt)
is_less? Ordering.lt = some refl
is_less? Ordering.eq = none
is_less? Ordering.gt = none

abbrev pub scalar_below : (n : ℕ) → compare n 55296 ≡ Ordering.lt → IsScalar n
scalar_below n e = rw e tt

-- The character of a code below the surrogates.
unfoldable pub char_of : ℕ → Char
char_of n = elim (is_less? (compare n 55296)) [ some e ↦ char n (scalar_below n e) | none ↦ nul ]

unfoldable pub text_of : Run → String
unfolding char_of
text_of [] = String.[]
text_of (c ∷ s) = String.◌∷◌ (char_of c) (text_of s)

abbrev pub run_eq : Run → Run → Bool
run_eq [] [] = true
run_eq (x ∷ xs) (y ∷ ys) = x == y && run_eq xs ys
run_eq _ _ = false

pub run_eq→eq : (a b : Run) → run_eq a b ≡ true → a ≡ b
run_eq→eq [] [] h = refl
run_eq→eq [] (y ∷ ys) h = absurd (ground arith)
run_eq→eq (x ∷ xs) [] h = absurd (ground arith)
run_eq→eq (x ∷ xs) (y ∷ ys) h = ground (arith, run_eq→eq xs ys)

pub run_eq_refl : (a : Run) → run_eq a a ≡ true
run_eq_refl [] = refl
run_eq_refl (x ∷ xs) = ground (arith, run_eq_refl xs)

abbrev pub is_nil : Run → Bool
is_nil [] = true
is_nil (x ∷ xs) = false

abbrev pub is_digit : ℕ → Bool
is_digit c = leb b'0' c && leb c b'9'

abbrev pub is_upper : ℕ → Bool
is_upper c = leb b'A' c && leb c b'Z'

abbrev pub is_lower : ℕ → Bool
is_lower c = leb b'a' c && leb c b'z'

abbrev pub is_alnum : ℕ → Bool
is_alnum c = is_digit c || is_upper c || is_lower c

-- `std::isspace`.
abbrev pub is_space : ℕ → Bool
is_space c = c == 32 || (leb 9 c && leb c 13)

abbrev pub lower : ℕ → ℕ
lower c = if is_upper c then c + 32 else c

abbrev pub to_lower : Run → Run
to_lower = map lower

unfoldable pub begins_with : Run → Run → Bool
begins_with [] s = true
begins_with (c ∷ p) [] = false
begins_with (c ∷ p) (b ∷ s) = c == b && begins_with p s

-- `s.find(p) != npos`.
unfoldable pub contains : Run → Run → Bool
unfolding begins_with
contains p [] = begins_with p []
contains p (c ∷ s) = begins_with p (c ∷ s) || contains p s

-- The replace loop, from left to right, without looking into what was put in.
unfoldable pub replace_from : Run → Run → ℕ → Run → Run
replace_from slot value skip [] = []
replace_from slot value (suc skip) (c ∷ s) = replace_from slot value skip s
replace_from slot value zero (c ∷ s) =
    let hit = begins_with slot (c ∷ s) in
    let rest = replace_from slot value (if hit then pred (length slot) else zero) s in
    if hit then value ++ rest else c ∷ rest

unfoldable pub replace_run : Run → Run → Run → Run
unfolding replace_from begins_with
replace_run slot value text = replace_from slot value 0 text

abbrev keep_token : Run → List Run → List Run
keep_token [] tokens = tokens
keep_token (c ∷ cur) tokens = (c ∷ cur) ∷ tokens

-- The runs of characters that pass the test: the tokenising loops of the source.
unfoldable pub tokens_from : (ℕ → Bool) → Run → Run → List Run
tokens_from good cur [] = keep_token cur []
tokens_from good cur (c ∷ s) =
    let rest = tokens_from good (if good c then cur ++ (c ∷ []) else []) s in
    if good c then rest else keep_token cur rest
