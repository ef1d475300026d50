-- ===== src/Intent/Names.antt =====
-- The names of the intents, there and back.
use xp_wellys_devfr_atc.Base.{◌≡◌, refl}
use xp_wellys_devfr_atc.Intent.{
  PilotIntent, unknown, radio_check, initial_call, initial_call_ground, initial_call_tower,
  initial_call_inbound, initial_call_inbound_vrp, request_taxi, request_taxi_parking,
  ready_for_departure, ready_for_departure_vfr, report_position, report_position_downwind,
  report_position_base, report_position_final, request_landing, request_touch_and_go, go_around,
  runway_vacated, readback, request_frequency, leaving_frequency, unable, self_announce,
  self_announce_departure, inappropriate_language, negative_correction, traffic_in_sight,
  traffic_negative_contact, traffic_looking, request_repeat, rmz_enter, rmz_leave, intent_name,
  intent_from_key,
}

-- Reading the name of an intent gives the intent back.
from_key-name : (i : PilotIntent) → intent_from_key (intent_name i) ≡ i
unfolding intent_name intent_from_key
from_key-name unknown = refl
from_key-name radio_check = refl
from_key-name initial_call = refl
from_key-name initial_call_ground = refl
from_key-name initial_call_tower = refl
from_key-name initial_call_inbound = refl
from_key-name initial_call_inbound_vrp = refl
from_key-name request_taxi = refl
from_key-name request_taxi_parking = refl
from_key-name ready_for_departure = refl
from_key-name ready_for_departure_vfr = refl
from_key-name report_position = refl
from_key-name report_position_downwind = refl
from_key-name report_position_base = refl
from_key-name report_position_final = refl
from_key-name request_landing = refl
from_key-name request_touch_and_go = refl
from_key-name go_around = refl
from_key-name runway_vacated = refl
from_key-name readback = refl
from_key-name request_frequency = refl
from_key-name leaving_frequency = refl
from_key-name unable = refl
from_key-name self_announce = refl
from_key-name self_announce_departure = refl
from_key-name inappropriate_language = refl
from_key-name negative_correction = refl
from_key-name traffic_in_sight = refl
from_key-name traffic_negative_contact = refl
from_key-name traffic_looking = refl
from_key-name request_repeat = refl
from_key-name rmz_enter = refl
from_key-name rmz_leave = refl
