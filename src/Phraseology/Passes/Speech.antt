-- ===== src/Phraseology/Passes/Speech.antt =====
-- The pass that lowers shouted words, and `normalize_for_speech` (src/atc/de_phraseology.cpp).
use xp_wellys_devfr_atc.Base.{
  ℕ, ◌+◌, Bool, not, ◌&&◌, ◌||◌, String, List, [], ◌∷◌, ◌++◌, leb, ◌==◌, length, any, keep, map,
  if◌then◌else◌,
}
use xp_wellys_devfr_atc.Base.Runs.{Run, codes, run_eq, is_digit, is_upper, is_lower}
use xp_wellys_devfr_atc.Base.Scan.{rewrite}
use xp_wellys_devfr_atc.Phraseology.Passes.{
  d_callsign, runway_number, keyword_digits, frequency_number, wind_numbers, altitude_number,
  clock_number, umlaut_word, information_alpha,
}

abbrev pub keep_upper : List String
keep_upper =
    "QNH" ∷ "VFR" ∷ "IFR" ∷ "ATIS" ∷ "ILS" ∷ "UTC" ∷ "RMZ" ∷ "TMZ" ∷ "CTR" ∷ "TMA" ∷ "CTA" ∷ []

-- Ä, Ö and Ü.
abbrev is_upper_umlaut : ℕ → Bool
is_upper_umlaut c = c == 196 || c == 214 || c == 220

-- ä, ö, ü and ß.
abbrev is_lower_umlaut : ℕ → Bool
is_lower_umlaut c = c == 228 || c == 246 || c == 252 || c == 223

abbrev is_big : ℕ → Bool
is_big c = is_upper c || is_upper_umlaut c

abbrev is_small : ℕ → Bool
is_small c = is_lower c || is_lower_umlaut c

unfoldable pub is_shouted : Run → Bool
is_shouted token =
    let all_caps =
      any is_big token
      && not (any is_small token)
      && leb 2 (length (keep (λ c. is_big c || is_small c) token)) in
    let core = keep (λ c. is_upper c || is_digit c) token in
    all_caps && not (any (λ acronym. run_eq core (codes acronym)) keep_upper)

unfoldable pub soften_word : Run → Run
unfolding is_shouted
soften_word token =
    if is_shouted token then map (λ c. if is_big c then c + 32 else c) token else token

-- The blanks of this pass.
abbrev pub is_blank : ℕ → Bool
is_blank c = c == 32 || c == 9 || c == 10 || c == 13

-- The loop, with the token that is being read.
unfoldable pub soften_from : Run → Run → Run
unfolding soften_word
soften_from token [] = soften_word token
soften_from token (c ∷ s) =
    let rest = soften_from (if is_blank c then [] else token ++ (c ∷ [])) s in
    if is_blank c then soften_word token ++ (c ∷ rest) else rest

unfoldable pub soften_caps_for_speech : Run → Run
unfolding soften_from
soften_caps_for_speech s = soften_from [] s

unfoldable pub normalize_for_speech : Run → Run
unfolding soften_caps_for_speech rewrite d_callsign runway_number keyword_digits frequency_number
    wind_numbers altitude_number clock_number umlaut_word information_alpha
normalize_for_speech text =
    let callsigns = rewrite d_callsign text in
    let runways = rewrite runway_number callsigns in
    let pressure = rewrite (keyword_digits "QNH " 3 4 0 "Hektopascal") runways in
    let headings = rewrite (keyword_digits "Steuerkurs " 1 3 3 "") pressure in
    let frequencies = rewrite frequency_number headings in
    let wind = rewrite wind_numbers frequencies in
    let altitudes = rewrite altitude_number wind in
    let hours = rewrite clock_number altitudes in
    let numbers = rewrite (keyword_digits "Nummer " 1 2 0 "") hours in
    let letters = rewrite information_alpha numbers in
    soften_caps_for_speech (rewrite umlaut_word letters)
