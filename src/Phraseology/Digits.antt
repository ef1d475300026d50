-- ===== src/Phraseology/Digits.antt =====
-- Digits as words (src/atc/de_phraseology.cpp).
use xp_wellys_devfr_atc.Base.{
  ℕ, ◌+◌, ◌-◌, ◌*◌, ◌/◌, ◌%◌, Bool, true, false, not, ◌||◌, [], ◌∷◌, ◌++◌, ltb, ◌==◌, get_elem?,
  or_empty, if◌then◌else◌,
}
use xp_wellys_devfr_atc.Base.Runs.{Run, codes, is_digit}
use xp_wellys_devfr_atc.Phonetic.{digit_words_de}

-- `kDigitWords[i]`.
abbrev pub digit_word : ℕ → Run
digit_word i = codes (or_empty (get_elem? digit_words_de i))

-- The loop over (first, digits).
unfoldable pub spell : Bool → Run → Run
spell first [] = []
spell first (c ∷ digits) =
    let rest = spell (if is_digit c then false else first) digits in
    if is_digit c then (if first then [] else 32 ∷ []) ++ (digit_word (c - b'0') ++ rest) else rest

unfoldable pub ziffernweise : Run → Run
unfolding spell
ziffernweise digits = spell true digits

-- The empty text stands for a shape that has no such form.
unfoldable pub thousand_form : ℕ → Run
thousand_form n =
    let remainder = n % 1000 in
    if ltb n 1000 || ltb 9999 n
    then []
    else if remainder == 0
    then digit_word (n / 1000) ++ codes " tausend"
    else if not (remainder % 100 == 0)
    then []
    else digit_word (n / 1000)
      ++ (codes " tausend" ++ (32 ∷ (digit_word (remainder / 100) ++ codes "hundert")))

-- `n = n * 10 + (c - '0')`, over (n, digits).
unfoldable pub number_from : ℕ → Run → ℕ
number_from n [] = n
number_from n (c ∷ digits) = number_from (n * 10 + (c - b'0')) digits
