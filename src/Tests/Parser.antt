-- ===== src/Tests/Parser.antt =====
-- The parser of transcripts at concrete inputs.
use xp_wellys_devfr_atc.Base.{◌≡◌, refl, false, String, List, [], ◌∷◌}
use xp_wellys_devfr_atc.Base.Runs.{codes, text_of, contains, to_lower}
use xp_wellys_devfr_atc.English.Speech
use xp_wellys_devfr_atc.English.Spoken
use xp_wellys_devfr_atc.IntentParser.{Parser, extract_destination, parse}
use xp_wellys_devfr_atc.IntentParser.Corrected.{as_heard, parse-corrected}
use xp_wellys_devfr_atc.Intent.{PilotIntent}
use xp_wellys_devfr_atc.IntentRules.{containing, nil, cons}
use xp_wellys_devfr_atc.Tests.Data.{idle_world, ramp, settings}
use xp_wellys_devfr_atc.Phraseology.Icao.{parse_spoken_icao}
use xp_wellys_devfr_atc.IntentParser.Runway.{extract_runway}
use xp_wellys_devfr_atc.IntentParser.Callsign.{extract_callsign}
use xp_wellys_devfr_atc.IntentParser.Correction.{is_negation, trimmed, strip_self_correction}
use xp_wellys_devfr_atc.Vrps.{AirportData, find_in_transcript, get_pattern_direction}
use xp_wellys_devfr_atc.Double.{whole, lit}
use xp_wellys_devfr_atc.Double.Fixed.{Fixed, fixed_double}

english_speech :
    Speech.normalize_for_speech
      (codes "N123, runway 07L, QNH 1013, HOLD SHORT, 2500 feet, 3 o'clock")
    ≡ codes
        "N123, runway zero seven left, QNH one zero one tree, hold short, two thousand fife hundred feet, tree o'clock"
unfolding Speech.normalize_for_speech
english_speech = refl

english_numbers :
    Spoken.parse_spoken_number (codes "runway seven, contact one one eight point two five")
    ≡ codes "runway 7, contact 118.25"
unfolding Spoken.parse_spoken_number
english_numbers = refl

runway_in_german : extract_runway "DE" (codes "rollen zur piste 2-5 links") ≡ codes "25L"
unfolding extract_runway
runway_in_german = refl

runway_in_english : extract_runway "EN" (codes "runway twenty six right") ≡ codes "26R"
unfolding extract_runway
runway_in_english = refl

callsign_spelled :
    extract_callsign "DE" "" (codes "hier delta echo, alpha bravo charlie, rollen")
    ≡ "Delta Echo Alpha Bravo Charlie"
unfolding extract_callsign text_of
callsign_spelled = refl

destination_spelled :
    extract_destination "DE" (codes "vfr nach echo delta mike alfa") ≡ codes "EDMA"
unfolding extract_destination parse_spoken_icao
destination_spelled = refl

corrected :
    strip_self_correction (codes "request taxi runway 28, correction, runway 16")
    ≡ codes "runway 16"
unfolding strip_self_correction
corrected = refl

not_corrected :
    strip_self_correction (codes "no correction, request taxi")
    ≡ codes "no correction, request taxi"
unfolding strip_self_correction
not_corrected = refl

abbrev airports : List (String × AirportData Fixed)
airports =
    (
      "EDTF",
      record {
        name = "Freiburg";
        vrps =
            record { name = "Whiskey"; lat = whole 0; lon = whole 0; alt_ft = whole 0 }
            ∷ record { name = "Sierra Eins"; lat = whole 0; lon = whole 0; alt_ft = whole 0 }
            ∷ [];
        arrival_routes = [];
        pattern_direction = ("_default", "left") ∷ ("25", "right") ∷ [];
      },
    )
    ∷ []

point_reported :
    find_in_transcript airports "EDTF" (codes "delta whiskey, ueber sierra eins, 2000")
    ≡ "Sierra Eins"
unfolding find_in_transcript
point_reported = refl

direction_of_base : get_pattern_direction airports "EDTF" "25L" ≡ "right"
unfolding get_pattern_direction text_of
direction_of_base = refl

abbrev parser : Parser Fixed
parser = record {
  settings = settings;
  airports = airports;
  normalizations = [];
  rules =
      record {
        intent = PilotIntent.request_taxi;
        confidence = lit 9 1;
        any_of = nil;
        all_of = cons (containing (codes "runway")) nil;
        none_of = nil;
      }
      ∷ [];
  adjustments = [];
}

intent_and_runway : (parse parser idle_world "Runway 26, D-EABC" ramp).message.runway ≡ "26"
unfolding parse text_of
intent_and_runway = refl

no_more : contains (codes "correction") (to_lower (codes "Runway 16")) ≡ false
unfolding contains
no_more = refl

request_is_no_negation : is_negation (trimmed (codes "request taxi runway 28, ")) ≡ false
unfolding is_negation trimmed
request_is_no_negation = refl

parse-corrected_example :
    let understood = parse parser idle_world "Runway 16" ramp in
    parse parser idle_world "Request taxi runway 28, correction Runway 16" ramp
    ≡ record understood {
      message = as_heard "Request taxi runway 28, correction Runway 16" understood.message;
    }
parse-corrected_example =
    parse-corrected parser idle_world ramp "Request taxi runway 28, correction Runway 16"
      "Runway 16" (codes "request taxi runway 28, ") refl no_more refl request_is_no_negation

-- Without the reversal of English numbers, only the first of two English digit words is taken.
first_word_alone : extract_runway "DE" (codes "runway two six") ≡ codes "2"
unfolding extract_runway
first_word_alone = refl
