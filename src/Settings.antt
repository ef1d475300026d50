-- ===== src/Settings.antt =====
-- The user's settings that the dialog reads (src/persistence/settings.hpp), as values.
use xp_wellys_devfr_atc.Base.{Bool, String}

pub record Settings (F : Type 0) : Type 0 where
  pub atc_profile : String
  pub bzf_strict_mode : Bool
  pub pilot_callsign : String
  pub start_mode : String
  pub vfr_flight_type : String
  pub vfr_destination : String
  pub pattern_direction : String
  pub auto_correction_factor : F
