-- ===== src/Env.antt =====
-- What the dialog reads and does not change: the settings, the loaded rule files, the traffic
-- snapshot, and the answers of the ATIS and of the reporting points.
use xp_wellys_devfr_atc.Base.{ℕ, String}
use xp_wellys_devfr_atc.Settings.{Settings}
use xp_wellys_devfr_atc.FlightPhase.{FlightRules}
use xp_wellys_devfr_atc.Templates.{Templates}
use xp_wellys_devfr_atc.InitialCall.{Conformance}
use xp_wellys_devfr_atc.Traffic.{TrafficContext}

pub record Env (F : Type 0) : Type 0 where
  pub settings : Settings F
  pub rules : FlightRules F
  pub templates : Templates
  pub conformance : Conformance
  pub traffic : TrafficContext F
  -- `atis_generator::current_letter()`.
  pub atis_letter : ℕ
  -- `airport_vrps::get_pattern_direction(airport, runway)`.
  pub vrp_pattern_direction : String → String → String
