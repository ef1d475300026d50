-- ===== src/Phraseology/Icao.antt =====
-- An aerodrome that is spelled: `parse_spoken_icao` (src/atc/de_phraseology.cpp).
pub mod RoundTrip
use xp_wellys_devfr_atc.Base.{
  ℕ, suc, ◌+◌, Bool, true, false, not, ◌&&◌, ◌||◌, String, Option, none, some, List, [], ◌∷◌, ◌++◌,
  leb, ltb, ◌==◌, length, keep, if◌then◌else◌,
}
use xp_wellys_devfr_atc.Base.Runs.{Run, codes, run_eq, is_nil, is_upper, is_lower, to_lower}
use xp_wellys_devfr_atc.Phonetic.{nato_letters}

abbrev pub is_alpha : ℕ → Bool
is_alpha c = is_upper c || is_lower c

abbrev pub without_dash : Run → Run
without_dash w = keep (λ c. not (c == b'-')) w

-- The letter whose word it is, from `letter` on.
unfoldable pub letter_among : ℕ → List String → Run → Option ℕ
letter_among letter [] key = none
letter_among letter (w ∷ words) key =
    if run_eq key (without_dash (to_lower (codes w)))
    then some letter
    else letter_among (suc letter) words key

-- The letter of a word, with the variants; `none` is '\0'.
unfoldable pub letter_of : List String → Run → Option ℕ
unfolding letter_among
letter_of letters key = elim (letter_among b'A' letters key) [
  | some letter ↦ some letter
  | none ↦
      if run_eq key (codes "alpha")
      then some b'A'
      else if run_eq key (codes "juliet")
      then some b'J'
      else none
]

unfoldable pub nato_word_to_letter : Run → Option ℕ
unfolding letter_of
nato_word_to_letter w = letter_of (nato_letters "X-Ray") (without_dash w)

abbrev pub keep_word : Run → List Run → List Run
keep_word [] words = words
keep_word (c ∷ word) words = (c ∷ word) ∷ words

-- The words of letters and dashes that begin with a letter: over (word, text).
unfoldable pub words_from : Run → Run → List Run
words_from word [] = keep_word word []
words_from word (c ∷ s) =
    let goes_on = is_alpha c || (c == b'-' && not (is_nil word)) in
    let rest = words_from (if goes_on then word ++ (c ∷ []) else []) s in
    if goes_on then rest else keep_word word rest

-- Three or four letters, or nothing.
abbrev pub settled : Run → Run
settled icao = if ltb (length icao) 3 || ltb 4 (length icao) then [] else icao

-- The loop over (icao, words); the run has started when there is a letter.
unfoldable pub icao_from : (Run → Option ℕ) → Run → List Run → Run
icao_from letter icao [] = settled icao
icao_from letter icao (w ∷ words) = elim (letter w) [
  | none ↦ if is_nil icao then [] else settled icao
  | some c ↦
      let longer = icao ++ (c ∷ []) in
      let rest = icao_from letter longer words in if ltb 4 (length longer) then [] else rest
]

unfoldable pub parse_spoken_icao : Run → Run
unfolding icao_from nato_word_to_letter words_from
parse_spoken_icao words_lower = icao_from nato_word_to_letter [] (words_from [] words_lower)
