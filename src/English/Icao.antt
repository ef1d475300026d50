-- ===== src/English/Icao.antt =====
-- An aerodrome that is spelled: `parse_spoken_icao` (src/atc/en_phraseology.cpp).
use xp_wellys_devfr_atc.Base.{ℕ, Option, []}
use xp_wellys_devfr_atc.Base.Runs.{Run, to_lower}
use xp_wellys_devfr_atc.Phonetic.{nato_letters}
use xp_wellys_devfr_atc.Phraseology.Icao.{without_dash, letter_of, words_from, icao_from}

-- In whatever case.
unfoldable pub nato_word_to_letter : Run → Option ℕ
unfolding letter_of
nato_word_to_letter w = letter_of (nato_letters "X-ray") (to_lower (without_dash w))

unfoldable pub parse_spoken_icao : Run → Run
unfolding icao_from nato_word_to_letter words_from
parse_spoken_icao words_lower = icao_from nato_word_to_letter [] (words_from [] words_lower)
