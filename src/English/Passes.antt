-- ===== src/English/Passes.antt =====
-- The passes of `normalize_for_speech` (src/atc/en_phraseology.cpp), each a rewriting rule.
use xp_wellys_devfr_atc.Base.{
  ℕ, ◌+◌, ◌-◌, Bool, not, ◌&&◌, ◌||◌, String, Option, none, some, [], ◌∷◌, ◌++◌, leb, ltb, ◌==◌,
  length, if◌then◌else◌,
}
use xp_wellys_devfr_atc.Base.Runs.{Run, codes, is_nil, is_digit, to_lower, begins_with}
use xp_wellys_devfr_atc.Base.Scan.{
  Rule, span, take, drop, replicate, boundary_before, boundary_after,
}
use xp_wellys_devfr_atc.Phraseology.Digits.{number_from}
use xp_wellys_devfr_atc.Phraseology.Passes.{number_here, word_here}
use xp_wellys_devfr_atc.English.Digits.{ziffernweise, thousand_form}

-- The keyword stands here in whatever case, at the start of a word.
unfoldable pub match_keyword_ci : String → Option ℕ → Run → Bool
unfolding begins_with
match_keyword_ci kw prev s = boundary_before prev && begins_with (to_lower (codes kw)) (to_lower s)

-- The side behind a runway number, and how many characters it takes.
unfoldable pub runway_side : Run → Run × ℕ
runway_side [] = ([], 0)
runway_side (c ∷ rest) =
    if not ((c == b'L' || c == b'R' || c == b'C') && boundary_after rest)
    then ([], 0)
    else if c == b'L'
    then (codes " left", 1)
    else if c == b'R'
    then (codes " right", 1)
    else (codes " center", 1)

-- "Runway 25", "runway 07L"; the keyword keeps its case.
unfoldable pub runway_number : Rule ℕ ℕ
unfolding span runway_side ziffernweise match_keyword_ci
runway_number prev s =
    let (digits, rest) = span is_digit (drop 7 s) in
    let n = length digits in
    let (side, used) = runway_side rest in
    if not (match_keyword_ci "Runway " prev s)
    then none
    else if ltb n 1 || ltb 2 n
    then some (take 7 s, 7)
    else some (take 7 s ++ (ziffernweise digits ++ side), 7 + n + used)

unfoldable pub keyword_digits : String → ℕ → ℕ → ℕ → Rule ℕ ℕ
unfolding span match_keyword_ci ziffernweise
keyword_digits keyword min_digits max_digits pad_to prev s =
    let k = length (codes keyword) in
    let (digits, rest) = span is_digit (drop k s) in
    let n = length digits in
    let padded = replicate (pad_to - n) b'0' ++ digits in
    if not (match_keyword_ci keyword prev s)
    then none
    else if ltb n min_digits || ltb max_digits n
    then some (take k s, k)
    else some (take k s ++ ziffernweise padded, k + n)

-- "118.250".
unfoldable pub frequency_number : Rule ℕ ℕ
unfolding span begins_with ziffernweise
frequency_number prev s =
    let (whole_part, rest) = number_here prev s in
    let (fraction, behind) = span is_digit (drop 1 rest) in
    let a = length whole_part in
    let b = length fraction in
    if (leb 2 a && leb a 3)
      && begins_with (codes ".") rest
      && (leb 1 b && leb b 3)
      && boundary_after behind
    then some (ziffernweise whole_part ++ (codes " decimal " ++ ziffernweise fraction), a + 1 + b)
    else none

-- "250 degrees 12 knots".
unfoldable pub wind_numbers : Rule ℕ ℕ
unfolding span begins_with ziffernweise
wind_numbers prev s =
    let (direction, rest) = number_here prev s in
    let (blanks, after) = span (λ c. c == 32) (drop 8 rest) in
    let (speed, behind) = span is_digit after in
    let a = length direction in
    let b = length speed in
    if (leb 1 a && leb a 3)
      && word_here " degrees" rest
      && (leb 1 b && leb b 3)
      && word_here " knots" behind
    then some (
      ziffernweise direction ++ (codes " degrees " ++ (ziffernweise speed ++ codes " knots")),
      a + 8 + length blanks + b + 6,
    )
    else none

-- The digits of an altitude in thousands and hundreds, if they have that form.
unfoldable pub spoken_altitude : Run → Run
unfolding ziffernweise thousand_form number_from
spoken_altitude digits =
    let form = thousand_form (number_from 0 digits) in
    if is_nil form then ziffernweise digits else form

-- "2500 feet", "300 meters".
unfoldable pub altitude_number : Rule ℕ ℕ
unfolding span begins_with spoken_altitude
altitude_number prev s =
    let (digits, rest) = number_here prev s in
    let n = length digits in
    if not (leb 1 n && leb n 5)
    then none
    else if word_here " feet" rest
    then some (spoken_altitude digits ++ codes " feet", n + 5)
    else if word_here " meters" rest
    then some (spoken_altitude digits ++ codes " meters", n + 7)
    else none

-- "11 o'clock".
unfoldable pub clock_number : Rule ℕ ℕ
unfolding span begins_with ziffernweise number_from
clock_number prev s =
    let (digits, rest) = number_here prev s in
    let n = length digits in
    let hour = number_from 0 digits in
    if (leb 1 n && leb n 2) && word_here " o'clock" rest && (leb 1 hour && leb hour 12)
    then some (ziffernweise digits ++ codes " o'clock", n + 8)
    else none

-- "number 2".
unfoldable pub sequence_number : Rule ℕ ℕ
unfolding keyword_digits
sequence_number prev s = keyword_digits "number " 1 2 0 prev s
