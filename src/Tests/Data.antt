-- ===== src/Tests/Data.antt =====
-- The data of the tests.
use xp_wellys_devfr_atc.Base.{true, false, String, none, some, [], ◌∷◌}
use xp_wellys_devfr_atc.Double.{whole}
use xp_wellys_devfr_atc.Double.Fixed.{Fixed, fixed_double}
use xp_wellys_devfr_atc.State.{AtcState, pattern}
use xp_wellys_devfr_atc.Intent.{PilotMessage, PilotIntent}
use xp_wellys_devfr_atc.Radio.{FrequencyType, FacilityType, AirportFrequencies}
use xp_wellys_devfr_atc.Context.{XplaneContext, default_context}
use xp_wellys_devfr_atc.Readback.{no_clearance, Element}
use xp_wellys_devfr_atc.FlightPhase.{
  FlightPhase, FlightRules, PhaseThresholds, HysteresisConfig, IntentPrecondition,
}
use xp_wellys_devfr_atc.Templates.{Templates, StateBlock}
use xp_wellys_devfr_atc.Settings.{Settings}
use xp_wellys_devfr_atc.Machine.{Machine}
use xp_wellys_devfr_atc.World.{World, PhaseState}
use xp_wellys_devfr_atc.Dialog
use xp_wellys_devfr_atc.Env.{Env}

abbrev pub idle_machine : Machine Fixed
idle_machine = record {
  gen = 41;
  state = AtcState.idle;
  readback_pending = false;
  was_airborne = true;
  assigned_runway = "25";
  session_callsign = "D-EABC";
  last_clearance_text = "";
  last_clearance_components = no_clearance;
  last_tower_response_text = "D-EABC, Piste 25, Start frei.";
  departure_type = pattern;
  flight_intent_declared = false;
  flight_intent_cross_country = false;
  flight_intent_destination = "";
  history = [];
  last_now_secs = whole 100;
  active_correction_key = "";
  correction_timer = whole 0;
}

-- A taxi clearance that waits for its readback.
abbrev pub cleared_machine : Machine Fixed
cleared_machine = record idle_machine {
  state = AtcState.taxi_cleared;
  readback_pending = true;
  last_clearance_text = "Rollen Sie zum Rollhalt Piste 25.";
  last_clearance_components = record {
    callsign = "D-EABC";
    runway = "25";
    qnh = "1013";
    frequency = "";
    squawk = "";
    required = Element.callsign ∷ Element.runway ∷ Element.qnh ∷ [];
  };
}

abbrev pub parked_flight : PhaseState Fixed
parked_flight = record {
  current_phase = FlightPhase.parked;
  candidate_phase = FlightPhase.parked;
  candidate_timer = whole 0;
  was_airborne = false;
}

abbrev pub idle_world : World Fixed
idle_world = record {
  machine = idle_machine;
  last_airport_id = "EDTF";
  dialog = Dialog.init;
  flight = parked_flight;
}

abbrev pub tower_frequencies : AirportFrequencies
tower_frequencies =
    record { freq_khz = 118_250; type = FrequencyType.tower }
    ∷ record { freq_khz = 118_250; type = FrequencyType.atis }
    ∷ []

abbrev pub ramp : XplaneContext Fixed
ramp = record default_context {
  nearest_airport_id = "EDTF";
  nearest_airport_name = "Freiburg";
  frequency_type = FrequencyType.tower;
  facility_type = FacilityType.towered;
  airport_freqs = tower_frequencies;
  active_runway = "25";
}

abbrev pub aloft : XplaneContext Fixed
aloft = record ramp { on_ground = false }

abbrev pub thresholds : PhaseThresholds Fixed
thresholds = record {
  taxi_min_gs_kt = whole 3;
  roll_min_gs_kt = whole 35;
  climb_min_vs_fpm = whole 200;
  pattern_max_agl_ft = whole 2000;
  near_airport_nm = whole 5;
  runway_aligned_deg = whole 20;
  final_descent_rate_fpm = whole 0;
}

abbrev pub hysteresis : HysteresisConfig Fixed
hysteresis = record {
  ground_to_airborne_sec = whole 2;
  airborne_to_landing_sec = whole 3;
  auto_correction_delay_sec = whole 5;
}

abbrev pub taxi_rule : IntentPrecondition
taxi_rule = record {
  allowed_phases = FlightPhase.parked ∷ FlightPhase.taxi ∷ [];
  rejection_parked = "";
  rejection_airborne = "{callsign}, Sie sind in der Luft.";
  rejection_ground = "";
}

abbrev pub rules : FlightRules Fixed
rules = record {
  thresholds = thresholds;
  hysteresis = hysteresis;
  preconditions = ("REQUEST_TAXI", taxi_rule) ∷ [];
  auto_corrections =
      (
        "TAXI_CLEARED",
        (
          "airborne",
          record { phases = FlightPhase.climb ∷ []; next_state = "IDLE"; delay_sec = whole 5 },
        )
            ∷ [],
      )
      ∷ [];
  frequency_auto_corrections = [];
  intent_frequency = [];
  pilot_phraseology = [];
  state_frequency_validity = [];
  idle_redirects = [];
  state_reverts = [];
  tower_only_auto_advance = [];
  frequency_hint = none;
}

abbrev pub idle_block : StateBlock
idle_block =
    (
      "INITIAL_CALL_GROUND",
      record {
        response = some "{callsign}, {station}.";
        next_state = some "GROUND_CONTACT";
        requires_readback = none;
      },
    )
    ∷ ("_INVALID", record { response = none; next_state = none; requires_readback = none })
    ∷ []

abbrev pub templates : Templates
templates = record {
  loaded = true;
  blocks = ("towered", ("IDLE", idle_block) ∷ []) ∷ [];
  fallbacks = [];
  bzf_strict = [];
}

abbrev pub settings : Settings Fixed
settings = record {
  atc_profile = "DE";
  bzf_strict_mode = true;
  pilot_callsign = "D-EABC";
  start_mode = "cold_and_dark";
  vfr_flight_type = "pattern";
  vfr_destination = "";
  pattern_direction = "left";
  auto_correction_factor = whole 1;
}

abbrev pub env : Env Fixed
env = record {
  settings = settings;
  rules = rules;
  templates = templates;
  conformance = record { loaded = false; nodes = [] };
  traffic = record { targets = []; last_update_secs = whole 0 };
  atis_letter = 65;
  vrp_pattern_direction = λ airport runway. "";
}

abbrev pub says : PilotIntent → String → PilotMessage
says intent heard = record {
  raw_transcript = heard;
  intent = intent;
  callsign = "D-EABC";
  runway = "";
  vrp_name = "";
  destination = "";
  has_position = false;
}
