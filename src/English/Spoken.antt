-- ===== src/English/Spoken.antt =====
-- Spoken numbers become digits again: `parse_spoken_number` (src/atc/en_phraseology.cpp).
use xp_wellys_devfr_atc.Base.{
  ℕ, zero, suc, ◌+◌, Bool, false, not, ◌&&◌, ◌||◌, String, Option, none, some, List, [], ◌∷◌, ◌++◌,
  leb, ltb, ◌==◌, length, any, map, reverse, if◌then◌else◌,
}
use xp_wellys_devfr_atc.Base.Runs.{Run, codes, run_eq, is_nil, is_alnum, to_lower, tokens_from}
use xp_wellys_devfr_atc.Base.Scan.{Rule, scan, span, drop}
use xp_wellys_devfr_atc.Phraseology.Spoken.{
  Token, is_blank, value_among, token_body_has_digit, trailing_of, weld_from,
}

-- The punctuation behind the word is split off; an apostrophe is part of it.
unfoldable pub token_of : Run → Token
unfolding span
token_of raw =
    let (trailing, body) = span (λ c. not (is_alnum c || c == 39)) (reverse raw) in
    record { raw = raw; lc_word = to_lower (reverse body); trailing = reverse trailing }

unfoldable pub tokenize : Run → List Token
unfolding token_of tokens_from
tokenize s = map token_of (tokens_from (λ c. not (is_blank c)) [] s)

abbrev spoken_words : List (String × ℕ)
spoken_words =
    ("zero", 0)
    ∷ ("one", 1)
    ∷ ("two", 2)
    ∷ ("tree", 3)
    ∷ ("fower", 4)
    ∷ ("fife", 5)
    ∷ ("six", 6)
    ∷ ("seven", 7)
    ∷ ("eight", 8)
    ∷ ("niner", 9)
    ∷ ("oh", 0)
    ∷ ("three", 3)
    ∷ ("four", 4)
    ∷ ("five", 5)
    ∷ ("nine", 9)
    ∷ []

-- `none` is -1.
unfoldable pub spoken_digit_value : Run → Option ℕ
spoken_digit_value lc_word = value_among spoken_words lc_word

-- The loop of `collect_digit_run`, with the digits that still fit in. A run ends behind punctuation.
unfoldable pub collect_from : ℕ → List Token → Run
unfolding spoken_digit_value
collect_from zero tokens = []
collect_from (suc room) [] = []
collect_from (suc room) (t ∷ tokens) =
    let rest = collect_from room tokens in
    elim (spoken_digit_value t.lc_word) [
      | none ↦ []
      | some v ↦ (b'0' + v) ∷ (if is_nil t.trailing then rest else [])
    ]

-- Each token gives one digit, so the run is as long as its digits.
unfoldable pub collect_digit_run : List Token → ℕ → ℕ → Run
unfolding collect_from
collect_digit_run tokens min_digits max_digits =
    let digits = collect_from max_digits tokens in
    if ltb (length digits) min_digits then [] else digits

abbrev anchors : List String
anchors =
    "runway" ∷ "qnh" ∷ "heading" ∷ "frequency" ∷ "wind" ∷ "number" ∷ "contact" ∷ "climb" ∷ "descend"
    ∷ "squawk" ∷ "traffic" ∷ "information" ∷ []

unfoldable pub prev_token_is_run_anchor : Option Token → Bool
prev_token_is_run_anchor none = false
prev_token_is_run_anchor (some t) = any (λ a. run_eq t.lc_word (codes a)) anchors

-- A "decimal" or "point" without punctuation comes first.
abbrev tok_is_decimal : List Token → Bool
tok_is_decimal [] = false
tok_is_decimal (t ∷ tokens) =
    (run_eq t.lc_word (codes "decimal") || run_eq t.lc_word (codes "point")) && is_nil t.trailing

-- "one one eight decimal two fife".
unfoldable pub frequency_run : List Token → Option (List Run × ℕ)
frequency_run tokens =
    let left = collect_digit_run tokens 2 3 in
    let n = length left in
    let after = drop n tokens in
    let right = collect_digit_run (drop 1 after) 1 3 in
    let m = length right in
    if leb 1 n && is_nil (trailing_of n tokens) && tok_is_decimal after && leb 1 m
    then some ((left ++ (b'.' ∷ (right ++ trailing_of m (drop 1 after)))) ∷ [], n + 1 + m)
    else none

-- The body of the loop: a frequency, a run of digits, or the token as it is.
unfoldable pub spoken_rule : Rule Token Run
unfolding frequency_run prev_token_is_run_anchor token_body_has_digit
spoken_rule prev [] = none
spoken_rule prev (t ∷ tokens) =
    let run = collect_digit_run (t ∷ tokens) (if prev_token_is_run_anchor prev then 1 else 2) 4 in
    let n = length run in
    if token_body_has_digit t then none else elim (frequency_run (t ∷ tokens)) [
      | some found ↦ some found
      | none ↦ if leb 1 n then some ((run ++ trailing_of n (t ∷ tokens)) ∷ [], n) else none
    ]

unfoldable pub parse_spoken_number : Run → Run
unfolding scan spoken_rule weld_from tokenize collect_digit_run
parse_spoken_number text =
    let tokens = tokenize text in
    let pieces = scan spoken_rule (λ t. t.raw) none 0 tokens in
    elim tokens [ [] ↦ text | t ∷ ts ↦ weld_from [] pieces ]
