-- ===== src/Phonetic.antt =====
-- The spelling of an ICAO code for speech (`expand_callsign_phonetic` of
-- src/atc/de_phraseology.cpp and src/atc/en_phraseology.cpp).
use xp_wellys_devfr_atc.Base.{
  ℕ, ◌-◌, String, Option, none, some, List, [], ◌∷◌, get_elem?, concat, is_empty, if◌then◌else◌,
}
use xp_wellys_devfr_atc.Base.Runs.{Run, codes, is_upper, is_lower, is_digit}

abbrev nato_tail : List String
nato_tail = "Yankee" ∷ "Zulu" ∷ []

-- `kNatoLetters`; the two files differ in the word for X.
abbrev pub nato_letters : String → List String
nato_letters x_word =
    "Alfa" ∷ "Bravo" ∷ "Charlie" ∷ "Delta" ∷ "Echo" ∷ "Foxtrot" ∷ "Golf" ∷ "Hotel" ∷ "India"
    ∷ "Juliett" ∷ "Kilo" ∷ "Lima" ∷ "Mike" ∷ "November" ∷ "Oscar" ∷ "Papa" ∷ "Quebec" ∷ "Romeo"
    ∷ "Sierra" ∷ "Tango" ∷ "Uniform" ∷ "Victor" ∷ "Whiskey" ∷ x_word ∷ nato_tail

abbrev pub digit_words_de : List String
digit_words_de =
    "null" ∷ "eins" ∷ "zwo" ∷ "drei" ∷ "vier" ∷ "fuenf" ∷ "sechs" ∷ "sieben" ∷ "acht" ∷ "neun" ∷ []

abbrev pub digit_words_en : List String
digit_words_en =
    "zero" ∷ "one" ∷ "two" ∷ "tree" ∷ "four" ∷ "fife" ∷ "six" ∷ "seven" ∷ "eight" ∷ "niner" ∷ []

-- The word of one character; `none` is the null pointer.
unfoldable pub word_of : List String → List String → ℕ → Option String
word_of letters digits c =
    if is_upper c
    then get_elem? letters (c - b'A')
    else if is_lower c
    then get_elem? letters (c - b'a')
    else if is_digit c
    then get_elem? digits (c - b'0')
    else none

-- The loop over (out, raw).
unfoldable pub expand_from : List String → List String → String → Run → String
unfolding word_of
expand_from letters digits out [] = out
expand_from letters digits out (c ∷ raw) =
    expand_from letters digits
      (elim (word_of letters digits c) [
        | none ↦ out
        | some word ↦ if is_empty out then word else concat (out ∷ " " ∷ word ∷ [])
      ])
      raw

unfoldable pub expand_de : String → String
unfolding expand_from
expand_de raw = expand_from (nato_letters "X-Ray") digit_words_de "" (codes raw)

unfoldable pub expand_en : String → String
unfolding expand_from
expand_en raw = expand_from (nato_letters "X-ray") digit_words_en "" (codes raw)
