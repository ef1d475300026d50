-- ===== src/Traffic.antt =====
-- The snapshot of other aircraft (src/data/traffic_context.hpp).
pub mod Classify
pub mod Update
use xp_wellys_devfr_atc.Base.{ℕ, Bool, String, List, ◌==◌}

pub data TrafficPhase : Type 0 where
  unknown on_ground taxi takeoff climb cruise descend final pattern landed : TrafficPhase

abbrev pub traffic_phase_index : TrafficPhase → ℕ
traffic_phase_index unknown = 0
traffic_phase_index on_ground = 1
traffic_phase_index taxi = 2
traffic_phase_index takeoff = 3
traffic_phase_index climb = 4
traffic_phase_index cruise = 5
traffic_phase_index descend = 6
traffic_phase_index final = 7
traffic_phase_index pattern = 8
traffic_phase_index landed = 9

-- `==` on the enumeration.
abbrev pub traffic_phase_eq : TrafficPhase → TrafficPhase → Bool
traffic_phase_eq a b = traffic_phase_index a == traffic_phase_index b

-- The wake category is left out: no modelled part reads it.
pub record TrafficTarget (F : Type 0) : Type 0 where
  pub modes_id : ℕ
  pub callsign : String
  pub icao_type : String
  pub lat : F
  pub lon : F
  pub alt_msl_ft : F
  pub alt_agl_ft : F
  pub bearing_from_user_deg : F
  pub clock_position : F
  pub distance_to_user_nm : F
  pub altitude_diff_ft : F
  pub groundspeed_kts : F
  pub vertical_speed_fpm : F
  pub track_deg : F
  pub phase : TrafficPhase

pub record TrafficContext (F : Type 0) : Type 0 where
  pub targets : List (TrafficTarget F)
  pub last_update_secs : F
