-- ===== src/IntentParser/Runway.antt =====
-- `extract_runway` (src/atc/intent_parser.cpp).
use xp_wellys_devfr_atc.Base.{
  Bool, false, not, ◌&&◌, ◌||◌, String, Option, none, some, [], ◌∷◌, ◌++◌, ltb, ◌==◌, length,
  reverse, text_eq, if◌then◌else◌,
}
use xp_wellys_devfr_atc.Base.Runs.{Run, codes, is_nil, is_digit, begins_with}
use xp_wellys_devfr_atc.Base.Scan.{drop}
use xp_wellys_devfr_atc.IntentParser.Words.{
  spoken_digits, spoken_digits_de, runway_suffix, runway_suffix_de, after_blank, word_of,
}

-- What follows the first occurrence; `none` is npos.
unfoldable pub behind_first : Run → Run → Option Run
unfolding begins_with
behind_first word [] = none
behind_first word (c ∷ s) =
    let later = behind_first word s in
    if begins_with word (c ∷ s) then some (drop (length word) (c ∷ s)) else later

-- What follows the anchor.
unfoldable pub behind_anchor : Bool → Run → Option Run
unfolding behind_first
behind_anchor de text = elim (behind_first (codes "runway") text) [
  | some after ↦ some after
  | none ↦ if de then behind_first (codes "piste") text else none
]

-- A digit word of either language.
unfoldable pub digit_word : Bool → Run → Option (Run × Run)
unfolding word_of
digit_word de text = elim (word_of spoken_digits text) [
  | some found ↦ some found
  | none ↦ if de then word_of spoken_digits_de text else none
]

abbrev starts_with_digit : Run → Bool
starts_with_digit [] = false
starts_with_digit (c ∷ s) = is_digit c

-- Up to two digits, with a hyphen or a blank between them: over (digits, text).
unfoldable pub collect_digits : Run → Run → Run × Run
collect_digits digits [] = (digits, [])
collect_digits digits (c ∷ s) =
    let taken = collect_digits (digits ++ (c ∷ [])) s in
    let passed = collect_digits digits s in
    if not (ltb (length digits) 2)
    then (digits, c ∷ s)
    else if is_digit c
    then taken
    else if not (is_nil digits) && (c == b'-' || c == 32) && starts_with_digit s
    then passed
    else (digits, c ∷ s)

-- One or two digit words.
unfoldable pub digit_words : Bool → Run → Option (Run × Run)
unfolding digit_word
digit_words de text = elim (digit_word de text) [
  | none ↦ none
  | some (first, rest) ↦ elim (digit_word de rest) [
    | none ↦ some (first, rest)
    | some (second, behind) ↦ some (first ++ second, behind)
  ]
]

-- The number and what follows; an empty number is none. The longer words come first.
unfoldable pub runway_number : Bool → Run → Run × Run
unfolding word_of digit_words collect_digits
runway_number de text = elim (word_of (reverse spoken_digits) text) [
  | some found ↦ found
  | none ↦ elim (digit_words de text) [
    | some found ↦ found
    | none ↦ let (digits, rest) = collect_digits [] text in (digits, after_blank rest)
  ]
]

unfoldable pub suffix_of : Bool → Run → Run
unfolding word_of
suffix_of de text = elim (word_of runway_suffix text) [
  | some (code, _) ↦ code
  | none ↦
      if not de
      then []
      else elim (word_of runway_suffix_de text) [ some (code, _) ↦ code | none ↦ [] ]
]

unfoldable pub extract_runway : String → Run → Run
unfolding behind_anchor runway_number suffix_of
extract_runway profile text =
    let de = text_eq profile "DE" in
    elim (behind_anchor de text) [
      | none ↦ []
      | some after ↦
          let (number, rest) = runway_number de (after_blank after) in
          if is_nil number then [] else number ++ suffix_of de rest
    ]
