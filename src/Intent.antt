-- ===== src/Intent.antt =====
-- The pilot's intents and messages (src/atc/intent_parser.hpp), and the names of the intents
-- (src/atc/intent_parser.cpp).
pub mod Names
use xp_wellys_devfr_atc.Base.{ℕ, Bool, String, Option, none, some, List, [], ◌∷◌, lookup, ◌==◌}

pub data PilotIntent : Type 0 where
  unknown radio_check initial_call initial_call_ground initial_call_tower : PilotIntent
  initial_call_inbound initial_call_inbound_vrp request_taxi request_taxi_parking : PilotIntent
  ready_for_departure ready_for_departure_vfr report_position report_position_downwind : PilotIntent
  report_position_base report_position_final request_landing request_touch_and_go go_around :
      PilotIntent
  runway_vacated readback request_frequency leaving_frequency unable self_announce : PilotIntent
  self_announce_departure inappropriate_language negative_correction traffic_in_sight : PilotIntent
  traffic_negative_contact traffic_looking request_repeat rmz_enter rmz_leave : PilotIntent

abbrev pub intent_index : PilotIntent → ℕ
intent_index unknown = 0
intent_index radio_check = 1
intent_index initial_call = 2
intent_index initial_call_ground = 3
intent_index initial_call_tower = 4
intent_index initial_call_inbound = 5
intent_index initial_call_inbound_vrp = 6
intent_index request_taxi = 7
intent_index request_taxi_parking = 8
intent_index ready_for_departure = 9
intent_index ready_for_departure_vfr = 10
intent_index report_position = 11
intent_index report_position_downwind = 12
intent_index report_position_base = 13
intent_index report_position_final = 14
intent_index request_landing = 15
intent_index request_touch_and_go = 16
intent_index go_around = 17
intent_index runway_vacated = 18
intent_index readback = 19
intent_index request_frequency = 20
intent_index leaving_frequency = 21
intent_index unable = 22
intent_index self_announce = 23
intent_index self_announce_departure = 24
intent_index inappropriate_language = 25
intent_index negative_correction = 26
intent_index traffic_in_sight = 27
intent_index traffic_negative_contact = 28
intent_index traffic_looking = 29
intent_index request_repeat = 30
intent_index rmz_enter = 31
intent_index rmz_leave = 32

-- `==` on the enumeration.
abbrev pub intent_eq : PilotIntent → PilotIntent → Bool
intent_eq a b = intent_index a == intent_index b

-- The confidence is left out: only the parser and the log read it.
pub record PilotMessage : Type 0 where
  pub raw_transcript : String
  pub intent : PilotIntent
  pub callsign : String
  pub runway : String
  pub vrp_name : String
  pub destination : String
  pub has_position : Bool

unfoldable pub intent_name : PilotIntent → String
intent_name unknown = "UNKNOWN"
intent_name radio_check = "RADIO_CHECK"
intent_name initial_call = "INITIAL_CALL"
intent_name initial_call_ground = "INITIAL_CALL_GROUND"
intent_name initial_call_tower = "INITIAL_CALL_TOWER"
intent_name initial_call_inbound = "INITIAL_CALL_INBOUND"
intent_name initial_call_inbound_vrp = "INITIAL_CALL_INBOUND_VRP"
intent_name request_taxi = "REQUEST_TAXI"
intent_name request_taxi_parking = "REQUEST_TAXI_PARKING"
intent_name ready_for_departure = "READY_FOR_DEPARTURE"
intent_name ready_for_departure_vfr = "READY_FOR_DEPARTURE_VFR"
intent_name report_position = "REPORT_POSITION"
intent_name report_position_downwind = "REPORT_POSITION_DOWNWIND"
intent_name report_position_base = "REPORT_POSITION_BASE"
intent_name report_position_final = "REPORT_POSITION_FINAL"
intent_name request_landing = "REQUEST_LANDING"
intent_name request_touch_and_go = "REQUEST_TOUCH_AND_GO"
intent_name go_around = "GO_AROUND"
intent_name runway_vacated = "RUNWAY_VACATED"
intent_name readback = "READBACK"
intent_name request_frequency = "REQUEST_FREQUENCY"
intent_name leaving_frequency = "LEAVING_FREQUENCY"
intent_name unable = "UNABLE"
intent_name self_announce = "SELF_ANNOUNCE"
intent_name self_announce_departure = "SELF_ANNOUNCE_DEPARTURE"
intent_name inappropriate_language = "INAPPROPRIATE_LANGUAGE"
intent_name negative_correction = "NEGATIVE_CORRECTION"
intent_name traffic_in_sight = "TRAFFIC_IN_SIGHT"
intent_name traffic_negative_contact = "TRAFFIC_NEGATIVE_CONTACT"
intent_name traffic_looking = "TRAFFIC_LOOKING"
intent_name request_repeat = "REQUEST_REPEAT"
intent_name rmz_enter = "RMZ_ENTER"
intent_name rmz_leave = "RMZ_LEAVE"

unfoldable pub intent_template_key : PilotIntent → String
unfolding intent_name
intent_template_key initial_call = "INITIAL_CALL_TOWER"
intent_template_key intent = intent_name intent

-- `kMap` of `intent_from_key`.
abbrev pub intent_map : List (String × PilotIntent)
intent_map =
    ("RADIO_CHECK", radio_check)
    ∷ ("INITIAL_CALL", initial_call)
    ∷ ("INITIAL_CALL_GROUND", initial_call_ground)
    ∷ ("INITIAL_CALL_TOWER", initial_call_tower)
    ∷ ("INITIAL_CALL_INBOUND", initial_call_inbound)
    ∷ ("INITIAL_CALL_INBOUND_VRP", initial_call_inbound_vrp)
    ∷ ("REQUEST_TAXI", request_taxi)
    ∷ ("REQUEST_TAXI_PARKING", request_taxi_parking)
    ∷ ("READY_FOR_DEPARTURE", ready_for_departure)
    ∷ ("READY_FOR_DEPARTURE_VFR", ready_for_departure_vfr)
    ∷ ("REPORT_POSITION", report_position)
    ∷ ("REPORT_POSITION_DOWNWIND", report_position_downwind)
    ∷ ("REPORT_POSITION_BASE", report_position_base)
    ∷ ("REPORT_POSITION_FINAL", report_position_final)
    ∷ ("REQUEST_LANDING", request_landing)
    ∷ ("REQUEST_TOUCH_AND_GO", request_touch_and_go)
    ∷ ("GO_AROUND", go_around)
    ∷ ("RUNWAY_VACATED", runway_vacated)
    ∷ ("READBACK", readback)
    ∷ ("_READBACK", readback)
    ∷ ("REQUEST_FREQUENCY", request_frequency)
    ∷ ("LEAVING_FREQUENCY", leaving_frequency)
    ∷ ("UNABLE", unable)
    ∷ ("SELF_ANNOUNCE", self_announce)
    ∷ ("SELF_ANNOUNCE_DEPARTURE", self_announce_departure)
    ∷ ("INAPPROPRIATE_LANGUAGE", inappropriate_language)
    ∷ ("NEGATIVE_CORRECTION", negative_correction)
    ∷ ("TRAFFIC_IN_SIGHT", traffic_in_sight)
    ∷ ("TRAFFIC_NEGATIVE_CONTACT", traffic_negative_contact)
    ∷ ("TRAFFIC_LOOKING", traffic_looking)
    ∷ ("REQUEST_REPEAT", request_repeat)
    ∷ ("RMZ_ENTER", rmz_enter)
    ∷ ("RMZ_LEAVE", rmz_leave)
    ∷ []

unfoldable pub intent_from_key : String → PilotIntent
intent_from_key key = elim (lookup key intent_map) [ none ↦ unknown | some intent ↦ intent ]
