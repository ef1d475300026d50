-- ===== src/Vars.antt =====
-- The variables of the templates (`build_vars` and its helpers, src/atc/flows/ground_operations.cpp).
use Prim.Native.String
use Prim.Native.Char.{code}
use xp_wellys_devfr_atc.Base.{
  ◌-◌, Bool, true, not, ◌&&◌, ◌||◌, String, List, [], ◌∷◌, ltb, leb, ◌==◌, length, get_elem?,
  text_eq, concat, is_empty, or_empty, if◌then◌else◌,
}
use xp_wellys_devfr_atc.Base.Runs.{codes, to_lower, contains}
use xp_wellys_devfr_atc.Double.{Double, ◌<?◌, ◌≤?◌, mul, lit, whole}
use xp_wellys_devfr_atc.Radio.{FrequencyType, frequency_eq, first_mhz}
use xp_wellys_devfr_atc.Intent.{PilotMessage, intent_eq, request_taxi, initial_call_ground}
use xp_wellys_devfr_atc.Context.{XplaneContext}
use xp_wellys_devfr_atc.State.{idle, state_eq}
use xp_wellys_devfr_atc.Machine.{Machine}
use xp_wellys_devfr_atc.Env.{Env}
use xp_wellys_devfr_atc.Phonetic.{expand_de, expand_en}

abbrev pub Vars : Type 0
Vars = List (String × String)

abbrev keep_word : String → List String → List String
keep_word word words = if is_empty word then words else word ∷ words

-- The loop that splits at blanks, over (word, cs).
unfoldable pub words_from : String → String → List String
words_from word String.[] = keep_word word []
words_from word (String.◌∷◌ c cs) =
    let at_blank = code c == 32 in
    let rest = words_from (if at_blank then "" else String.◌++◌ word (String.◌∷◌ c String.[])) cs in
    if at_blank then keep_word word rest else rest

-- The last three words.
unfoldable pub last_three : List String → List String
last_three [] = []
last_three (w ∷ ws) = let rest = last_three ws in if ltb 3 (length (w ∷ ws)) then rest else w ∷ ws

-- `result += " " + word`.
abbrev join_words : String → List String → String
join_words result [] = result
join_words result (w ∷ ws) =
    join_words (concat (result ∷ (if is_empty result then "" else " ") ∷ w ∷ [])) ws

unfoldable pub abbreviate_callsign : String → String
unfolding words_from last_three
abbreviate_callsign cs =
    let words = words_from "" cs in
    if leb (length words) 3 then cs else join_words "" (last_three words)

abbrev facility_suffix : FrequencyType → String
facility_suffix FrequencyType.info = " Information"
facility_suffix FrequencyType.radio = " Radio"
facility_suffix FrequencyType.tower = " Tower"
facility_suffix _ = ""

module _ {F : Type 0} where
  -- The session's callsign, the message's, or the configured one.
  unfoldable pub known_callsign : Env F → Machine F → PilotMessage → String
  known_callsign env m msg =
      if not (is_empty m.session_callsign)
      then m.session_callsign
      else if not (is_empty msg.callsign)
      then msg.callsign
      else env.settings.pilot_callsign

  unfoldable pub get_callsign : Env F → Machine F → PilotMessage → String
  unfolding known_callsign
  get_callsign env m msg =
      let cs = known_callsign env m msg in
      if not (state_eq m.state idle) then abbreviate_callsign cs else cs

  unfoldable pub get_runway : Machine F → PilotMessage → XplaneContext F → String
  get_runway m msg ctx =
      if not (is_empty msg.runway)
      then msg.runway
      else if not (is_empty m.assigned_runway)
      then m.assigned_runway
      else if not (is_empty ctx.active_runway)
      then ctx.active_runway
      else "28"

  unfoldable pub airport_name : XplaneContext F → String
  airport_name ctx =
      if not (is_empty ctx.nearest_airport_name)
      then ctx.nearest_airport_name
      else if not (is_empty ctx.nearest_airport_id)
      then ctx.nearest_airport_id
      else "Airport"

  unfoldable pub facility_callname : XplaneContext F → String
  facility_callname ctx = concat (airport_name ctx ∷ facility_suffix ctx.frequency_type ∷ [])

  unfoldable pub extract_position : Machine F → PilotMessage → XplaneContext F → String
  extract_position m msg ctx =
      let rwy = get_runway m msg ctx in
      let apt = airport_name ctx in
      let heard = to_lower (codes msg.raw_transcript) in
      if ctx.on_ground
      then concat ("on the ground at " ∷ apt ∷ [])
      else if contains (codes "downwind") heard
      then concat ("downwind runway " ∷ rwy ∷ [])
      else if contains (codes "base") heard
      then concat ("base runway " ∷ rwy ∷ [])
      else if contains (codes "final") heard
      then concat ("final runway " ∷ rwy ∷ [])
      else if contains (codes "crosswind") heard
      then concat ("crosswind runway " ∷ rwy ∷ [])
      else if contains (codes "upwind") heard
      then concat ("upwind runway " ∷ rwy ∷ [])
      else concat ("in the pattern at " ∷ apt ∷ [])

unfoldable pub position_remark : Bool → PilotMessage → String
position_remark de msg =
    if not msg.has_position
      && (intent_eq msg.intent request_taxi || intent_eq msg.intent initial_call_ground)
    then (if de then "Sagen Sie Ihre Position. " else "say position. ")
    else ""

unfoldable pub intention : Bool → Bool → String → String
intention de cross_country dest =
    if de
    then (if cross_country
        then (if is_empty dest then "VFR Ueberlandflug" else concat ("VFR nach " ∷ dest ∷ []))
        else "VFR Platzrunde")
    else if cross_country
    then (if is_empty dest then "VFR cross country" else concat ("VFR to " ∷ dest ∷ []))
    else "VFR pattern"

unfoldable pub vfr_course_phrase : Bool → Bool → String → String
vfr_course_phrase de cross_country dest =
    if cross_country && not (is_empty dest)
    then concat ((if de then ", Kurs nach " else ", course to ") ∷ dest ∷ [])
    else ""

abbrev letter_names : List String
letter_names =
    "Alpha" ∷ "Bravo" ∷ "Charlie" ∷ "Delta" ∷ "Echo" ∷ "Foxtrot" ∷ "Golf" ∷ "Hotel" ∷ "India"
    ∷ "Juliet" ∷ "Kilo" ∷ "Lima" ∷ "Mike" ∷ "November" ∷ "Oscar" ∷ "Papa" ∷ "Quebec" ∷ "Romeo"
    ∷ "Sierra" ∷ "Tango" ∷ "Uniform" ∷ "Victor" ∷ "Whiskey" ∷ "X-ray" ∷ "Yankee" ∷ "Zulu" ∷ []

module _ {F : Type 0} ⦃d : Double F⦄ where
  unfoldable pub format_qnh : F → String
  format_qnh inhg = d.print_int (d.round (mul inhg (lit 338639 4)))

  unfoldable pub format_altimeter : F → String
  format_altimeter inhg = d.print_fixed 2 inhg

  unfoldable pub format_wind : Bool → F → F → String
  format_wind de dir spd =
      if spd <? whole 3
      then (if de then "ruhig" else "calm")
      else concat (
          d.print_padded 3 dir
          ∷ (if de then " Grad " else " degrees ")
          ∷ d.print_padded 2 spd
          ∷ (if de then " Knoten" else " knots")
          ∷ [])

  unfoldable pub format_freq : F → String
  format_freq mhz = if mhz <? whole 100 then "" else d.print_fixed 3 mhz

  unfoldable pub ground_freq : XplaneContext F → F
  ground_freq ctx =
      let f = first_mhz ctx.airport_freqs FrequencyType.ground in
      if f <? whole 1 && ctx.tower_only then first_mhz ctx.airport_freqs FrequencyType.tower else f

  unfoldable pub tower_handoff_phrase : Bool → XplaneContext F → F → String
  tower_handoff_phrase de ctx tower_freq =
      if not (frequency_eq ctx.frequency_type FrequencyType.tower) && whole 100 ≤? tower_freq
      then concat (
          (if de then ", wechseln Sie auf Tower " else ", contact Tower on ")
          ∷ format_freq tower_freq
          ∷ [])
      else ""

  -- The three tiers of the flight's intention: (cross_country, vfr_dest).
  unfoldable pub flight_intention : Env F → Machine F → PilotMessage → Bool × String
  flight_intention env m msg =
      if not (is_empty msg.destination)
      then (true, msg.destination)
      else if m.flight_intent_declared
      then (m.flight_intent_cross_country, m.flight_intent_destination)
      else (text_eq env.settings.vfr_flight_type "cross_country", env.settings.vfr_destination)

  unfoldable pub dest_spoken : Env F → String → String
  dest_spoken env vfr_dest =
      if is_empty vfr_dest
      then ""
      else if text_eq env.settings.atc_profile "EN"
      then expand_en vfr_dest
      else expand_de vfr_dest

  unfoldable pub pattern_side : Env F → XplaneContext F → String
  pattern_side env ctx =
      let dir = env.vrp_pattern_direction ctx.nearest_airport_id ctx.active_runway in
      if is_empty dir then env.settings.pattern_direction else dir

  -- The initialiser list, in key order.
  unfoldable pub build_vars : Env F → Machine F → PilotMessage → XplaneContext F → Vars
  build_vars env m msg ctx =
      let de = text_eq env.settings.atc_profile "DE" in
      let tower_freq = first_mhz ctx.airport_freqs FrequencyType.tower in
      let (cross_country, vfr_dest) = flight_intention env m msg in
      let dest = dest_spoken env vfr_dest in
      ("aircraft_type", ctx.aircraft_icao)
      ∷ (
        "aircraft_type_phrase",
        (if is_empty ctx.aircraft_icao then "" else concat (", " ∷ ctx.aircraft_icao ∷ [])),
      )
      ∷ ("airport", airport_name ctx)
      ∷ ("altimeter", format_altimeter ctx.qnh_inhg)
      ∷ ("altitude_info", "")
      ∷ ("atis_letter", or_empty (get_elem? letter_names (env.atis_letter - b'A')))
      ∷ ("callsign", get_callsign env m msg)
      ∷ ("clock", "")
      ∷ ("direction", "")
      ∷ ("distance", "")
      ∷ ("entry_vrp", msg.vrp_name)
      ∷ ("frequency", format_freq (ground_freq ctx))
      ∷ ("ground_frequency", format_freq (ground_freq ctx))
      ∷ ("intention", intention de cross_country dest)
      ∷ ("pattern_direction", pattern_side env ctx)
      ∷ ("position", extract_position m msg ctx)
      ∷ ("position_remark", position_remark de msg)
      ∷ ("qnh", format_qnh ctx.qnh_inhg)
      ∷ ("runway", get_runway m msg ctx)
      ∷ ("seq_number", "")
      ∷ ("seq_position", "")
      ∷ ("seq_type", "")
      ∷ ("side", "")
      ∷ ("station", facility_callname ctx)
      ∷ (
        "taxi_controller",
        (if ctx.tower_only
            then (if de then "Turm" else "Tower")
            else (if de then "Rollkontrolle" else "Ground")),
      )
      ∷ ("tower_frequency", format_freq tower_freq)
      ∷ ("tower_handoff_phrase", tower_handoff_phrase de ctx tower_freq)
      ∷ ("type", "")
      ∷ ("vfr_course_phrase", vfr_course_phrase de cross_country dest)
      ∷ ("wind", format_wind de ctx.wind_direction_deg ctx.wind_speed_kt)
      ∷ []
