-- ===== src/English/Speech.antt =====
-- The pass that lowers shouted words, and `normalize_for_speech` (src/atc/en_phraseology.cpp).
use xp_wellys_devfr_atc.Base.{
  Bool, not, ◌&&◌, ◌||◌, [], ◌∷◌, ◌++◌, leb, length, any, keep, map, if◌then◌else◌,
}
use xp_wellys_devfr_atc.Base.Runs.{Run, codes, run_eq, is_digit, is_upper, is_lower, lower}
use xp_wellys_devfr_atc.Base.Scan.{rewrite}
use xp_wellys_devfr_atc.Phraseology.Passes.Speech.{keep_upper, is_blank}
use xp_wellys_devfr_atc.English.Passes.{
  runway_number, keyword_digits, frequency_number, wind_numbers, altitude_number, clock_number,
  sequence_number,
}

unfoldable pub is_shouted : Run → Bool
is_shouted token =
    let all_caps =
      any is_upper token
      && not (any is_lower token)
      && leb 2 (length (keep (λ c. is_upper c || is_lower c) token)) in
    let core = keep (λ c. is_upper c || is_digit c) token in
    all_caps && not (any (λ acronym. run_eq core (codes acronym)) keep_upper)

unfoldable pub soften_word : Run → Run
unfolding is_shouted
soften_word token = if is_shouted token then map lower token else token

-- The loop, with the token that is being read.
unfoldable pub soften_from : Run → Run → Run
unfolding soften_word
soften_from token [] = soften_word token
soften_from token (c ∷ s) =
    let rest = soften_from (if is_blank c then [] else token ++ (c ∷ [])) s in
    if is_blank c then soften_word token ++ (c ∷ rest) else rest

unfoldable pub soften_caps_for_speech : Run → Run
unfolding soften_from
soften_caps_for_speech s = soften_from [] s

unfoldable pub normalize_for_speech : Run → Run
unfolding soften_caps_for_speech rewrite runway_number keyword_digits frequency_number wind_numbers
    altitude_number clock_number sequence_number
normalize_for_speech text =
    let runways = rewrite runway_number text in
    let pressure = rewrite (keyword_digits "QNH " 3 4 0) runways in
    let headings = rewrite (keyword_digits "heading " 1 3 3) pressure in
    let frequencies = rewrite frequency_number headings in
    let wind = rewrite wind_numbers frequencies in
    let altitudes = rewrite altitude_number wind in
    let hours = rewrite clock_number altitudes in
    soften_caps_for_speech (rewrite sequence_number hours)
