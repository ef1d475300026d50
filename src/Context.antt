-- ===== src/Context.antt =====
-- The snapshot of the simulator (src/core/xplane_context.hpp). The list of enclosing airspaces is
-- left out: no modelled part reads it.
use xp_wellys_devfr_atc.Base.{ℕ, Bool, true, false, String, List, []}
use xp_wellys_devfr_atc.Double.{Double, lit}
use xp_wellys_devfr_atc.Radio.{FrequencyType, FacilityType, AirportFrequencies}

pub record RunwayEnd (F : Type 0) : Type 0 where
  pub number : String
  pub lat : F
  pub lon : F
  pub heading_deg : F

pub record RunwayInfo (F : Type 0) : Type 0 where
  pub end1 : RunwayEnd F
  pub end2 : RunwayEnd F
  pub width_m : F
  pub length_m : F
  pub surface_code : ℕ

pub record XplaneContext (F : Type 0) : Type 0 where
  pub latitude : F
  pub longitude : F
  pub altitude_ft_msl : F
  pub groundspeed_kts : F
  pub indicated_airspeed_kts : F
  pub vertical_speed_fpm : F
  pub heading_true : F
  pub height_agl_ft : F
  pub on_ground : Bool
  pub com1_freq_mhz : F
  pub com2_freq_mhz : F
  pub com1_standby_mhz : F
  pub com2_standby_mhz : F
  pub active_com : ℕ
  pub transponder_code : ℕ
  pub transponder_mode : ℕ
  pub aircraft_icao : String
  pub nearest_airport_id : String
  pub geometric_nearest_id : String
  pub nearest_airport_name : String
  pub facility_type : FacilityType
  pub frequency_type : FrequencyType
  pub avionics_on : Bool
  pub com_radio_powered : Bool
  pub qnh_inhg : F
  pub wind_direction_deg : F
  pub wind_speed_kt : F
  pub visibility_m : F
  pub cloud_base_ft_msl : F
  pub cloud_type : ℕ
  pub temperature_c : F
  pub dewpoint_c : F
  pub atis_freq_mhz : F
  pub airport_freqs : AirportFrequencies
  pub tower_only : Bool
  pub airport_lat : F
  pub airport_lon : F
  pub runways : List (RunwayInfo F)
  pub active_runway : String
  pub now_secs : F

-- `is_towered()`.
unfoldable pub facility_is_towered : FacilityType → Bool
facility_is_towered FacilityType.towered = true
facility_is_towered _ = false

module _ {F : Type 0} where
  unfoldable pub is_towered : XplaneContext F → Bool
  unfolding facility_is_towered
  is_towered ctx = facility_is_towered ctx.facility_type

module _ {F : Type 0} ⦃d : Double F⦄ where
  -- The member initialisers of the struct.
  abbrev pub default_context : XplaneContext F
  default_context = record {
    latitude = lit 0 0;
    longitude = lit 0 0;
    altitude_ft_msl = lit 0 0;
    groundspeed_kts = lit 0 0;
    indicated_airspeed_kts = lit 0 0;
    vertical_speed_fpm = lit 0 0;
    heading_true = lit 0 0;
    height_agl_ft = lit 0 0;
    on_ground = true;
    com1_freq_mhz = lit 0 0;
    com2_freq_mhz = lit 0 0;
    com1_standby_mhz = lit 0 0;
    com2_standby_mhz = lit 0 0;
    active_com = 1;
    transponder_code = 7000;
    transponder_mode = 0;
    aircraft_icao = "";
    nearest_airport_id = "";
    geometric_nearest_id = "";
    nearest_airport_name = "";
    facility_type = FacilityType.unknown;
    frequency_type = FrequencyType.unknown;
    avionics_on = false;
    com_radio_powered = false;
    qnh_inhg = lit 2992 2;
    wind_direction_deg = lit 0 0;
    wind_speed_kt = lit 0 0;
    visibility_m = lit 9999 0;
    cloud_base_ft_msl = lit 99999 0;
    cloud_type = 0;
    temperature_c = lit 15 0;
    dewpoint_c = lit 10 0;
    atis_freq_mhz = lit 0 0;
    airport_freqs = [];
    tower_only = false;
    airport_lat = lit 0 0;
    airport_lon = lit 0 0;
    runways = [];
    active_runway = "";
    now_secs = lit 0 0;
  }
