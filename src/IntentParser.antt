-- ===== src/IntentParser.antt =====
-- From a transcript to the pilot's message (src/atc/intent_parser.cpp): the extractors read the
-- lowered text, the rules find the intent, and the adjustments correct it by context.
pub mod Words
pub mod Runway
pub mod Callsign
pub mod Correction
pub mod Corrected
use xp_wellys_devfr_atc.Base.{
  ℕ, Bool, true, false, not, ◌&&◌, ◌||◌, String, List, [], ◌∷◌, any, length, text_eq, if◌then◌else◌,
}
use xp_wellys_devfr_atc.Base.Runs.{Run, codes, text_of, to_lower, begins_with, contains, is_nil}
use xp_wellys_devfr_atc.Base.Scan.{drop}
use xp_wellys_devfr_atc.Double.{Double}
use xp_wellys_devfr_atc.Intent.{PilotMessage, unknown}
use xp_wellys_devfr_atc.Context.{XplaneContext}
use xp_wellys_devfr_atc.Settings.{Settings}
use xp_wellys_devfr_atc.World.{World}
use xp_wellys_devfr_atc.Vrps.{AirportData, find_in_transcript}
use xp_wellys_devfr_atc.Phraseology.Spoken.{parse_spoken_number as parse_spoken_number_de}
use xp_wellys_devfr_atc.Phraseology.Icao.{parse_spoken_icao as parse_spoken_icao_de}
use xp_wellys_devfr_atc.English.Spoken.{parse_spoken_number as parse_spoken_number_en}
use xp_wellys_devfr_atc.English.Icao.{parse_spoken_icao as parse_spoken_icao_en}
use xp_wellys_devfr_atc.IntentRules.{Rule, normalize, match_rules}
use xp_wellys_devfr_atc.IntentRules.Adjustments.{Adjustment, apply_adjustments}
use xp_wellys_devfr_atc.Engine.{Parsed}
use xp_wellys_devfr_atc.IntentParser.Runway.{extract_runway}
use xp_wellys_devfr_atc.IntentParser.Callsign.{extract_callsign}
use xp_wellys_devfr_atc.IntentParser.Correction.{strip_self_correction}

-- The aerodrome that is spelled behind an occurrence of the anchor.
unfoldable pub spelled_behind : (Run → Run) → Run → Run → Run
unfolding begins_with
spelled_behind spelled anchor [] = []
spelled_behind spelled anchor (c ∷ s) =
    let icao = spelled (drop (length anchor) (c ∷ s)) in
    let later = spelled_behind spelled anchor s in
    if begins_with anchor (c ∷ s) && not (is_nil icao) then icao else later

unfoldable pub spelled_among : (Run → Run) → List String → Run → Run
unfolding spelled_behind
spelled_among spelled [] text = []
spelled_among spelled (anchor ∷ anchors) text =
    let icao = spelled_behind spelled (codes anchor) text in
    let later = spelled_among spelled anchors text in if is_nil icao then later else icao

unfoldable pub extract_destination : String → Run → Run
unfolding spelled_among
extract_destination profile text =
    if text_eq profile "EN"
    then spelled_among parse_spoken_icao_en ("to " ∷ "for " ∷ []) text
    else spelled_among parse_spoken_icao_de ("nach " ∷ "richtung " ∷ []) text

abbrev english_markers : List String
english_markers =
    "on parking" ∷ "at parking" ∷ "from parking" ∷ "on the apron" ∷ "on apron" ∷ "on the ramp"
    ∷ "on ramp" ∷ "at stand" ∷ "at gate" ∷ "near the hangar" ∷ "near the tower" ∷ "on taxiway"
    ∷ "south apron" ∷ "north apron" ∷ "east apron" ∷ "west apron" ∷ "south side" ∷ "north side"
    ∷ "parking position" ∷ "at the parking" ∷ "general aviation parking" ∷ []

abbrev german_markers : List String
german_markers =
    "parkposition" ∷ "abstellposition" ∷ "abstellplatz" ∷ "warteposition" ∷ "haltepunkt" ∷ "vorfeld"
    ∷ "ga-vorfeld" ∷ "ga vorfeld" ∷ "tankstelle" ∷ "hangar" ∷ "am rollhalt" ∷ "auf der rollbahn"
    ∷ []

unfoldable pub detect_has_position : Run → Bool
unfolding contains
detect_has_position text =
    any (λ marker. contains (codes marker) text) english_markers
    || any (λ marker. contains (codes marker) text) german_markers

-- The table of the rules and the settings that the parser reads.
pub record Parser (F : Type 0) : Type 0 where
  pub settings : Settings F
  pub airports : List (String × AirportData F)
  pub normalizations : List (Run × Run)
  pub rules : List (Rule F)
  pub adjustments : List (Adjustment F)

module _ {F : Type 0} ⦃d : Double F⦄ where
  -- What the extractors and the rules read.
  unfoldable pub heard_text : Parser F → String → Run
  unfolding strip_self_correction parse_spoken_number_de parse_spoken_number_en normalize
  heard_text parser transcript =
      let profile = parser.settings.atc_profile in
      let text = strip_self_correction (to_lower (codes transcript)) in
      let numbers =
        if text_eq profile "DE"
        then parse_spoken_number_de text
        else if text_eq profile "EN"
        then parse_spoken_number_en text
        else text in
      normalize parser.normalizations numbers

  unfoldable pub extracted : Parser F → String → XplaneContext F → Run → PilotMessage
  unfolding extract_callsign extract_runway find_in_transcript extract_destination
      detect_has_position
  extracted parser transcript ctx text =
      let profile = parser.settings.atc_profile in
      record {
        raw_transcript = transcript;
        intent = unknown;
        callsign = extract_callsign profile parser.settings.pilot_callsign text;
        runway = text_of (extract_runway profile text);
        vrp_name = find_in_transcript parser.airports ctx.nearest_airport_id text;
        destination = text_of (extract_destination profile text);
        has_position = detect_has_position text;
      }

  -- The intent by the rules, and the adjustments.
  unfoldable pub classified : Parser F → World F → XplaneContext F → Run → PilotMessage → Parsed F
  unfolding match_rules apply_adjustments
  classified parser w ctx text msg =
      let (intent, confidence) = match_rules parser.rules text in
      let (adjusted, sure) =
        apply_adjustments parser.adjustments ctx text w.machine
          (record msg { intent = intent }, confidence) in
      record { message = adjusted; confidence = sure }

  unfoldable pub parse : Parser F → World F → String → XplaneContext F → Parsed F
  unfolding heard_text extracted classified
  parse parser w transcript ctx =
      let text = heard_text parser transcript in
      classified parser w ctx text (extracted parser transcript ctx text)
