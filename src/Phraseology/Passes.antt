-- ===== src/Phraseology/Passes.antt =====
-- The passes of `normalize_for_speech` (src/atc/de_phraseology.cpp), each a rewriting rule.
pub mod Speech
use xp_wellys_devfr_atc.Base.{
  ℕ, ◌+◌, ◌-◌, Bool, true, false, not, ◌&&◌, ◌||◌, String, Option, none, some, List, [], ◌∷◌, ◌++◌,
  leb, ltb, ◌==◌, length, any, find, map, or_empty, get_elem?, if◌then◌else◌,
}
use xp_wellys_devfr_atc.Base.Runs.{
  Run, codes, run_eq, is_nil, is_digit, is_upper, is_lower, is_alnum, lower, begins_with,
}
use xp_wellys_devfr_atc.Base.Scan.{
  Rule, rewrite, span, drop, replicate, boundary_before, boundary_after,
}
use xp_wellys_devfr_atc.Phonetic.{nato_letters}
use xp_wellys_devfr_atc.Phraseology.Digits.{ziffernweise, thousand_form, number_from}

-- The words of the letters, each behind a blank.
abbrev pub nato_words : Run → Run
nato_words [] = []
nato_words (c ∷ letters) =
    32 ∷ (codes (or_empty (get_elem? (nato_letters "X-Ray") (c - b'A'))) ++ nato_words letters)

-- "D-EXYZ".
unfoldable pub d_callsign : Rule ℕ ℕ
unfolding span begins_with
d_callsign prev s =
    let (letters, rest) = span is_upper (drop 2 s) in
    let n = length letters in
    if begins_with (codes "D-") s
      && boundary_before prev
      && (leb 2 n && leb n 5)
      && boundary_after rest
    then some (codes "Delta" ++ nato_words letters, 2 + n)
    else none

-- `match_keyword`: the keyword stands here, at the start of a word.
abbrev matches : String → Option ℕ → Run → Bool
matches keyword prev s = boundary_before prev && begins_with (codes keyword) s

-- The side behind a runway number, and how many characters it takes.
unfoldable pub runway_side : Run → Run × ℕ
runway_side [] = ([], 0)
runway_side (c ∷ rest) =
    if not (boundary_after rest)
    then ([], 0)
    else if c == b'L'
    then (codes " links", 1)
    else if c == b'R'
    then (codes " rechts", 1)
    else if c == b'C'
    then (codes " mitte", 1)
    else ([], 0)

-- "Piste 25", "Piste 07L".
unfoldable pub runway_number : Rule ℕ ℕ
unfolding span runway_side ziffernweise begins_with
runway_number prev s =
    let (digits, rest) = span is_digit (drop 6 s) in
    let n = length digits in
    let (side, used) = runway_side rest in
    if not (matches "Piste " prev s)
    then none
    else if ltb n 1 || ltb 2 n
    then some (codes "Piste ", 6)
    else some (codes "Piste " ++ (ziffernweise digits ++ side), 6 + n + used)

-- Does the unit follow already?
abbrev unit_follows : Run → Run → Bool
unit_follows unit rest =
    begins_with (32 ∷ unit) rest && boundary_after (drop (1 + length unit) rest)

-- `expand_keyword_digits`; the empty unit is `nullptr`.
unfoldable pub keyword_digits : String → ℕ → ℕ → ℕ → String → Rule ℕ ℕ
unfolding span begins_with ziffernweise
keyword_digits keyword min_digits max_digits pad_to unit prev s =
    let kw = codes keyword in
    let (digits, rest) = span is_digit (drop (length kw) s) in
    let n = length digits in
    let padded = replicate (pad_to - n) b'0' ++ digits in
    let tail =
      if is_nil (codes unit) || unit_follows (codes unit) rest then [] else 32 ∷ codes unit in
    if not (matches keyword prev s)
    then none
    else if ltb n min_digits || ltb max_digits n
    then some (kw, length kw)
    else some (kw ++ (ziffernweise padded ++ tail), length kw + n)

-- A number that starts here: its digits, and what follows.
abbrev pub number_here : Option ℕ → Run → Run × Run
number_here prev s = if boundary_before prev then span is_digit s else ([], s)

-- The word stands here, and ends here.
abbrev pub word_here : String → Run → Bool
word_here word s = begins_with (codes word) s && boundary_after (drop (length (codes word)) s)

-- "118.250".
unfoldable pub frequency_number : Rule ℕ ℕ
unfolding span begins_with ziffernweise
frequency_number prev s =
    let (whole_part, rest) = number_here prev s in
    let (fraction, behind) = span is_digit (drop 1 rest) in
    let a = length whole_part in
    let b = length fraction in
    if (leb 2 a && leb a 3)
      && begins_with (codes ".") rest
      && (leb 1 b && leb b 3)
      && boundary_after behind
    then some (ziffernweise whole_part ++ (codes " Komma " ++ ziffernweise fraction), a + 1 + b)
    else none

-- "250 Grad 12 Knoten"; the direction may not end the text.
unfoldable pub wind_numbers : Rule ℕ ℕ
unfolding span begins_with ziffernweise
wind_numbers prev s =
    let (direction, rest) = number_here prev s in
    let (blanks, after) = span (λ c. c == 32) (drop 5 rest) in
    let (speed, behind) = span is_digit after in
    let a = length direction in
    let b = length speed in
    if (leb 1 a && leb a 3)
      && word_here " Grad" rest
      && (leb 1 b && leb b 3)
      && word_here " Knoten" behind
    then some (
      ziffernweise direction ++ (codes " Grad " ++ (ziffernweise speed ++ codes " Knoten")),
      a + 5 + length blanks + b + 7,
    )
    else none

-- The digits of an altitude in thousands and hundreds, if they have that form.
unfoldable pub spoken_altitude : Run → Run
unfolding ziffernweise thousand_form number_from
spoken_altitude digits =
    let form = thousand_form (number_from 0 digits) in
    if is_nil form then ziffernweise digits else form

-- "2500 Fuss", "300 Meter".
unfoldable pub altitude_number : Rule ℕ ℕ
unfolding span begins_with spoken_altitude
altitude_number prev s =
    let (digits, rest) = number_here prev s in
    let n = length digits in
    if not (leb 1 n && leb n 5)
    then none
    else if word_here " Fuss" rest
    then some (spoken_altitude digits ++ codes " Fuss", n + 5)
    else if word_here " Meter" rest
    then some (spoken_altitude digits ++ codes " Meter", n + 6)
    else none

-- "11 Uhr".
unfoldable pub clock_number : Rule ℕ ℕ
unfolding span begins_with ziffernweise number_from
clock_number prev s =
    let (digits, rest) = number_here prev s in
    let n = length digits in
    let hour = number_from 0 digits in
    if (leb 1 n && leb n 2) && word_here " Uhr" rest && (leb 1 hour && leb hour 12)
    then some (ziffernweise digits ++ codes " Uhr", n + 4)
    else none

abbrev umlauts : List (String × String)
umlauts =
    ("Hoehenmessereinstellung", "Höhenmessereinstellung")
    ∷ ("Platzrundenhoehe", "Platzrundenhöhe")
    ∷ ("Wiederhoeren", "Wiederhören")
    ∷ ("fuenfhundert", "fünfhundert")
    ∷ ("vollstaendige", "vollständige")
    ∷ ("zurueckliest", "zurückliest")
    ∷ ("bestaetigen", "bestätigen")
    ∷ ("Bestaetigen", "Bestätigen")
    ∷ ("vollstaendig", "vollständig")
    ∷ ("Vollstaendig", "Vollständig")
    ∷ ("zurueck", "zurück")
    ∷ ("Zurueck", "Zurück")
    ∷ ("hoeren", "hören")
    ∷ ("Hoeren", "Hören")
    ∷ ("Hoehen", "Höhen")
    ∷ ("Hoehe", "Höhe")
    ∷ ("fuenf", "fünf")
    ∷ ("Fuenf", "Fünf")
    ∷ ("ueber", "über")
    ∷ ("Ueber", "Über")
    ∷ ("Fuss", "Fuß")
    ∷ ("fuer", "für")
    ∷ []

unfoldable pub umlaut_word : Rule ℕ ℕ
unfolding begins_with
umlaut_word prev s =
    if not (boundary_before prev) then none else elim (find (λ e. word_here e.0 s) umlauts) [
      | none ↦ none
      | some (ascii, utf8) ↦ some (codes utf8, length (codes ascii))
    ]

unfoldable pub information_alpha : Rule ℕ ℕ
unfolding begins_with
information_alpha prev s =
    if word_here "Information Alpha" s && boundary_before prev
    then some (codes "Information Alfa", 17)
    else none
