-- ===== src/Tests/Speech.antt =====
-- The theorems of the spoken forms and of the intent rules at concrete inputs.
use xp_wellys_devfr_atc.Base.{◌≡◌, refl, List, [], ◌∷◌, map, arith}
use xp_wellys_devfr_atc.Base.Runs.{codes, to_lower}
use xp_wellys_devfr_atc.Base.Scan.{rewrite}
use xp_wellys_devfr_atc.Double.{lit}
use xp_wellys_devfr_atc.Double.Fixed.{Fixed, fixed_double}
use xp_wellys_devfr_atc.Intent.{PilotIntent}
use xp_wellys_devfr_atc.Phraseology.Digits.{ziffernweise}
use xp_wellys_devfr_atc.Phraseology.Passes.{runway_number, nato_words}
use xp_wellys_devfr_atc.Phraseology.Passes.Speech.{normalize_for_speech}
use xp_wellys_devfr_atc.Phraseology.Spoken.{parse_spoken_number}
use xp_wellys_devfr_atc.Phraseology.Spoken.RoundTrip.{digit_char, parse_spoken_number-ziffernweise}
use xp_wellys_devfr_atc.Phraseology.Icao.{parse_spoken_icao}
use xp_wellys_devfr_atc.Phraseology.Icao.RoundTrip.{letter, parse_spoken_icao-nato_words}
use xp_wellys_devfr_atc.Phraseology.Spoken.Runway.{piste, parse_spoken_number-runway_number}
use xp_wellys_devfr_atc.IntentRules.{
  containing, has_facility, ends_with_runway_token, nil, cons, Rule, match_rules,
}
use xp_wellys_devfr_atc.IntentRules.Meaning.{IsDecided, match_rules-IsDecided}

speech_of_clearance :
    normalize_for_speech (codes "D-EXYZ, Piste 25L, QNH 1013, WIEDERHOLEN 2500 Fuss")
    ≡ codes
        "Delta Echo X-Ray Yankee Zulu, Piste zwo fünf links, QNH eins null eins drei Hektopascal, wiederholen zwo tausend fünfhundert Fuß"
unfolding normalize_for_speech
speech_of_clearance = refl

number_of_speech :
    parse_spoken_number (codes "Piste sieben, auf eins eins acht Komma zwo fuenf")
    ≡ codes "Piste 7, auf 118.25"
unfolding parse_spoken_number
number_of_speech = refl

parse_spoken_number-ziffernweise_example :
    parse_spoken_number (ziffernweise (map digit_char (1 ∷ 0 ∷ 1 ∷ 3 ∷ [])))
    ≡ map digit_char (1 ∷ 0 ∷ 1 ∷ 3 ∷ [])
parse_spoken_number-ziffernweise_example =
    parse_spoken_number-ziffernweise (1 ∷ 0 ∷ 1 ∷ 3 ∷ [])
      (omega arith, (omega arith, (omega arith, (omega arith, tt)))) (omega arith) (omega arith)

parse_spoken_number-runway_number_example :
    parse_spoken_number (rewrite runway_number (piste (2 ∷ 5 ∷ []))) ≡ piste (2 ∷ 5 ∷ [])
parse_spoken_number-runway_number_example =
    parse_spoken_number-runway_number (2 ∷ 5 ∷ []) (omega arith, (omega arith, tt)) (omega arith)
      (omega arith)

parse_spoken_icao-nato_words_example :
    parse_spoken_icao (to_lower (nato_words (map letter (4 ∷ 3 ∷ 19 ∷ 5 ∷ []))))
    ≡ map letter (4 ∷ 3 ∷ 19 ∷ 5 ∷ [])
parse_spoken_icao-nato_words_example =
    parse_spoken_icao-nato_words (4 ∷ 3 ∷ 19 ∷ 5 ∷ [])
      (omega arith, (omega arith, (omega arith, (omega arith, tt)))) (omega arith) (omega arith)

abbrev table : List (Rule Fixed)
table =
    record {
      intent = PilotIntent.initial_call;
      confidence = lit 9 1;
      any_of = cons (has_facility (codes "tower")) nil;
      all_of = nil;
      none_of = cons (containing (codes "rollen")) nil;
    }
    ∷ record {
      intent = PilotIntent.readback;
      confidence = lit 9 1;
      any_of = nil;
      all_of = cons ends_with_runway_token nil;
      none_of = nil;
    }
    ∷ []

intent_of_taxi :
    match_rules table (codes "tower, rollen zur piste zwo fuenf") ≡ (PilotIntent.readback, lit 9 1)
unfolding match_rules
intent_of_taxi = refl

match_rules-IsDecided_example :
    IsDecided table
      (codes "tower, rollen zur piste zwo fuenf")
      (match_rules table (codes "tower, rollen zur piste zwo fuenf"))
match_rules-IsDecided_example =
    match_rules-IsDecided table (codes "tower, rollen zur piste zwo fuenf")
