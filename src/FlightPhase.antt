-- ===== src/FlightPhase.antt =====
-- Flight phases (src/atc/flight_phase.hpp and .cpp): the phases, the configured rules and their
-- lookups. The loading of flight_rules.json is left out: the rules are a value of `FlightRules`.
pub mod Detect
pub mod Ground
pub mod Precondition
use xp_wellys_devfr_atc.Base.{
  ℕ, Bool, true, false, not, ◌&&◌, ◌||◌, String, Option, none, some, List, [], ◌∷◌, ◌==◌, text_eq,
  is_empty, lookup, or_empty, any, if◌then◌else◌,
}
use xp_wellys_devfr_atc.Radio.{FrequencyType, frequency_eq}

pub data FlightPhase : Type 0 where
  parked taxi takeoff_roll climb pattern final_approach landing_roll cruise : FlightPhase

abbrev pub phase_index : FlightPhase → ℕ
phase_index parked = 0
phase_index taxi = 1
phase_index takeoff_roll = 2
phase_index climb = 3
phase_index pattern = 4
phase_index final_approach = 5
phase_index landing_roll = 6
phase_index cruise = 7

-- `==` on the enumeration.
abbrev pub phase_eq : FlightPhase → FlightPhase → Bool
phase_eq a b = phase_index a == phase_index b

pub record IntentPrecondition : Type 0 where
  pub allowed_phases : List FlightPhase
  pub rejection_parked : String
  pub rejection_airborne : String
  pub rejection_ground : String

pub record AutoCorrection (F : Type 0) : Type 0 where
  pub phases : List FlightPhase
  pub next_state : String
  pub delay_sec : F

pub record FrequencyAutoCorrection : Type 0 where
  pub frequencies : List FrequencyType
  pub next_state : String
  pub log : String

pub record FrequencyRule : Type 0 where
  pub allowed : List String
  pub rejection : String

pub record IdleRedirect : Type 0 where
  pub intent_in : List String
  pub freq_type : FrequencyType
  pub unless_flag : String
  pub response : String
  pub log : String

pub record StateRevert : Type 0 where
  pub on_intent_in : List String
  pub in_state : String
  pub revert_to : String
  pub reset_departure_type : Bool
  pub log : String

pub record FrequencyHint : Type 0 where
  pub ground_intents : List String
  pub ground_response : String
  pub tower_response : String

pub record PhaseThresholds (F : Type 0) : Type 0 where
  pub taxi_min_gs_kt : F
  pub roll_min_gs_kt : F
  pub climb_min_vs_fpm : F
  pub pattern_max_agl_ft : F
  pub near_airport_nm : F
  pub runway_aligned_deg : F
  pub final_descent_rate_fpm : F

pub record HysteresisConfig (F : Type 0) : Type 0 where
  pub ground_to_airborne_sec : F
  pub airborne_to_landing_sec : F
  pub auto_correction_delay_sec : F

-- The module's configuration, as `load_from_file` leaves it.
pub record FlightRules (F : Type 0) : Type 0 where
  pub thresholds : PhaseThresholds F
  pub hysteresis : HysteresisConfig F
  pub preconditions : List (String × IntentPrecondition)
  pub auto_corrections : List (String × List (String × AutoCorrection F))
  pub frequency_auto_corrections : List (String × List (String × FrequencyAutoCorrection))
  pub intent_frequency : List (String × FrequencyRule)
  pub pilot_phraseology : List (String × String)
  pub state_frequency_validity : List (FrequencyType × List String)
  pub idle_redirects : List IdleRedirect
  pub state_reverts : List StateRevert
  pub tower_only_auto_advance : List (String × String)
  pub frequency_hint : Option FrequencyHint

unfoldable pub phase_name : FlightPhase → String
phase_name parked = "PARKED"
phase_name taxi = "TAXI"
phase_name takeoff_roll = "TAKEOFF_ROLL"
phase_name climb = "CLIMB"
phase_name pattern = "PATTERN"
phase_name final_approach = "FINAL_APPROACH"
phase_name landing_roll = "LANDING_ROLL"
phase_name cruise = "CRUISE"

unfoldable pub is_airborne : FlightPhase → Bool
is_airborne phase =
    phase_eq phase climb
    || phase_eq phase pattern
    || phase_eq phase final_approach
    || phase_eq phase cruise

unfoldable pub is_on_ground : FlightPhase → Bool
is_on_ground phase =
    phase_eq phase parked
    || phase_eq phase taxi
    || phase_eq phase takeoff_roll
    || phase_eq phase landing_roll

-- The rejection that is chosen for a phase that is not allowed.
unfoldable pub rejection_for : IntentPrecondition → FlightPhase → String
unfolding is_airborne is_on_ground
rejection_for pc phase =
    if phase_eq phase parked && not (is_empty pc.rejection_parked)
    then pc.rejection_parked
    else if is_airborne phase && not (is_empty pc.rejection_airborne)
    then pc.rejection_airborne
    else if is_on_ground phase && not (is_empty pc.rejection_ground)
    then pc.rejection_ground
    else if not (is_empty pc.rejection_airborne) && is_airborne phase
    then pc.rejection_airborne
    else if not (is_empty pc.rejection_ground)
    then pc.rejection_ground
    else if not (is_empty pc.rejection_parked)
    then pc.rejection_parked
    else "{callsign}, unable."

unfoldable pub freq_type_name : FrequencyType → String
freq_type_name FrequencyType.ground = "GROUND"
freq_type_name FrequencyType.tower = "TOWER"
freq_type_name FrequencyType.unicom = "UNICOM"
freq_type_name FrequencyType.ctaf = "CTAF"
freq_type_name FrequencyType.info = "INFO"
freq_type_name FrequencyType.radio = "RADIO"
freq_type_name _ = ""

-- `std::find` over texts.
abbrev pub mentions : String → List String → Bool
mentions key = any (λ k. text_eq k key)

abbrev pub lookup_frequency :
    FrequencyType → List (FrequencyType × List String) → Option (List String)
lookup_frequency ft [] = none
lookup_frequency ft ((k, v) ∷ m) = if frequency_eq k ft then some v else lookup_frequency ft m

module _ {F : Type 0} where
  unfoldable pub check_precondition : FlightRules F → String → FlightPhase → String
  unfolding rejection_for
  check_precondition rules intent_key phase = elim (lookup intent_key rules.preconditions) [
    | none ↦ ""
    | some pc ↦ if any (phase_eq phase) pc.allowed_phases then "" else rejection_for pc phase
  ]

  unfoldable pub get_auto_corrections :
      FlightRules F → String → Option (List (String × AutoCorrection F))
  get_auto_corrections rules atc_state = lookup atc_state rules.auto_corrections

  unfoldable pub get_frequency_auto_corrections :
      FlightRules F → String → Option (List (String × FrequencyAutoCorrection))
  get_frequency_auto_corrections rules atc_state = lookup atc_state rules.frequency_auto_corrections

  unfoldable pub is_intent_valid_for_frequency : FlightRules F → String → FrequencyType → Bool
  unfolding freq_type_name
  is_intent_valid_for_frequency rules intent_key ft =
      elim (lookup intent_key rules.intent_frequency) [
        | none ↦ true
        | some rule ↦
            if is_empty (freq_type_name ft)
            then false
            else mentions (freq_type_name ft) rule.allowed
      ]

  unfoldable pub check_frequency_precondition : FlightRules F → String → FrequencyType → String
  unfolding freq_type_name
  check_frequency_precondition rules intent_key ft =
      elim (lookup intent_key rules.intent_frequency) [
        | none ↦ ""
        | some rule ↦
            if any (λ f. not (is_empty (freq_type_name ft)) && text_eq f (freq_type_name ft))
              rule.allowed
            then ""
            else rule.rejection
      ]

  unfoldable pub get_pilot_phraseology : FlightRules F → String → String
  get_pilot_phraseology rules intent_key = or_empty (lookup intent_key rules.pilot_phraseology)

  unfoldable pub get_state_frequency_validity : FlightRules F → FrequencyType → Option (List String)
  get_state_frequency_validity rules ft = lookup_frequency ft rules.state_frequency_validity

  unfoldable pub get_tower_only_auto_advance : FlightRules F → String → String
  get_tower_only_auto_advance rules state = or_empty (lookup state rules.tower_only_auto_advance)
