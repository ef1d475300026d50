-- ===== src/Phraseology/Spoken.antt =====
-- Spoken numbers become digits again: `parse_spoken_number` (src/atc/de_phraseology.cpp).
pub mod RoundTrip
pub mod Runway
use xp_wellys_devfr_atc.Base.{
  ℕ, zero, suc, ◌+◌, Bool, true, false, not, ◌&&◌, ◌||◌, String, Option, none, some, List, [], ◌∷◌,
  ◌++◌, leb, ltb, ◌==◌, length, any, map, reverse, get_elem?, if◌then◌else◌,
}
use xp_wellys_devfr_atc.Base.Runs.{
  Run, codes, run_eq, is_nil, is_digit, is_alnum, lower, to_lower, tokens_from,
}
use xp_wellys_devfr_atc.Base.Scan.{Rule, scan, span, drop}

pub record Token : Type 0 where
  pub raw : Run
  pub lc_word : Run
  pub trailing : Run

abbrev pub is_blank : ℕ → Bool
is_blank c = c == 32 || c == 9 || c == 10

-- The punctuation behind the word is split off.
unfoldable pub token_of : Run → Token
unfolding span
token_of raw =
    let (trailing, body) = span (λ c. not (is_alnum c)) (reverse raw) in
    record { raw = raw; lc_word = to_lower (reverse body); trailing = reverse trailing }

unfoldable pub tokenize : Run → List Token
unfolding token_of tokens_from
tokenize s = map token_of (tokens_from (λ c. not (is_blank c)) [] s)

abbrev pub spoken_words : List (String × ℕ)
spoken_words =
    ("null", 0)
    ∷ ("eins", 1)
    ∷ ("zwo", 2)
    ∷ ("drei", 3)
    ∷ ("vier", 4)
    ∷ ("fuenf", 5)
    ∷ ("sechs", 6)
    ∷ ("sieben", 7)
    ∷ ("acht", 8)
    ∷ ("neun", 9)
    ∷ ("zwei", 2)
    ∷ ("fünf", 5)
    ∷ []

abbrev pub value_among : List (String × ℕ) → Run → Option ℕ
value_among [] word = none
value_among ((w, v) ∷ words) word = if run_eq word (codes w) then some v else value_among words word

-- `none` is -1.
unfoldable pub spoken_digit_value : Run → Option ℕ
spoken_digit_value lc_word = value_among spoken_words lc_word

unfoldable pub token_body_has_digit : Token → Bool
token_body_has_digit t = any is_digit t.lc_word

-- The loop of `collect_digit_run`, with the digits that still fit in. A run ends behind punctuation.
unfoldable pub collect_from : ℕ → List Token → Run
unfolding spoken_digit_value
collect_from zero tokens = []
collect_from (suc room) [] = []
collect_from (suc room) (t ∷ tokens) =
    let rest = collect_from room tokens in
    elim (spoken_digit_value t.lc_word) [
      | none ↦ []
      | some v ↦ (b'0' + v) ∷ (if is_nil t.trailing then rest else [])
    ]

-- Each token gives one digit, so the run is as long as its digits.
unfoldable pub collect_digit_run : List Token → ℕ → ℕ → Run
unfolding collect_from
collect_digit_run tokens min_digits max_digits =
    let digits = collect_from max_digits tokens in
    if ltb (length digits) min_digits then [] else digits

abbrev anchors : List String
anchors =
    "piste" ∷ "qnh" ∷ "steuerkurs" ∷ "runway" ∷ "frequenz" ∷ "wind" ∷ "auf" ∷ "in" ∷ "ueber"
    ∷ "nummer" ∷ "verkehr" ∷ "information" ∷ []

unfoldable pub prev_token_is_run_anchor : Option Token → Bool
prev_token_is_run_anchor none = false
prev_token_is_run_anchor (some t) = any (λ a. run_eq t.lc_word (codes a)) anchors

-- The punctuation behind token `i`.
abbrev trailing_at : ℕ → List Token → Run
trailing_at i [] = []
trailing_at zero (t ∷ tokens) = t.trailing
trailing_at (suc i) (t ∷ tokens) = trailing_at i tokens

-- The punctuation behind the last of the first `n` tokens.
abbrev pub trailing_of : ℕ → List Token → Run
trailing_of zero tokens = []
trailing_of (suc n) tokens = trailing_at n tokens

abbrev is_komma : List Token → Bool
is_komma [] = false
is_komma (t ∷ tokens) = run_eq t.lc_word (codes "komma") && is_nil t.trailing

-- "eins eins acht Komma zwo fuenf null".
unfoldable pub frequency_run : List Token → Option (List Run × ℕ)
frequency_run tokens =
    let left = collect_digit_run tokens 2 3 in
    let n = length left in
    let after = drop n tokens in
    let right = collect_digit_run (drop 1 after) 2 3 in
    let m = length right in
    if leb 1 n && is_nil (trailing_of n tokens) && is_komma after && leb 1 m
    then some ((left ++ (b'.' ∷ (right ++ trailing_of m (drop 1 after)))) ∷ [], n + 1 + m)
    else none

-- The body of the loop: a frequency, a run of digits, or the token as it is.
unfoldable pub spoken_rule : Rule Token Run
unfolding frequency_run prev_token_is_run_anchor token_body_has_digit
spoken_rule prev [] = none
spoken_rule prev (t ∷ tokens) =
    let run = collect_digit_run (t ∷ tokens) (if prev_token_is_run_anchor prev then 1 else 2) 4 in
    let n = length run in
    if token_body_has_digit t then none else elim (frequency_run (t ∷ tokens)) [
      | some found ↦ some found
      | none ↦ if leb 1 n then some ((run ++ trailing_of n (t ∷ tokens)) ∷ [], n) else none
    ]

abbrev ends_in_blank : Run → Bool
ends_in_blank [] = true
ends_in_blank (c ∷ []) = c == 32
ends_in_blank (c ∷ d ∷ s) = ends_in_blank (d ∷ s)

-- The pieces are appended to the text, each behind a blank: over (out, pieces).
unfoldable pub weld_from : Run → List Run → Run
weld_from out [] = out
weld_from out (piece ∷ pieces) =
    weld_from (out ++ ((if ends_in_blank out then [] else 32 ∷ []) ++ piece)) pieces

unfoldable pub parse_spoken_number : Run → Run
unfolding scan spoken_rule weld_from tokenize collect_digit_run
parse_spoken_number text =
    let tokens = tokenize text in
    let pieces = scan spoken_rule (λ t. t.raw) none 0 tokens in
    elim tokens [ [] ↦ text | t ∷ ts ↦ weld_from [] pieces ]
