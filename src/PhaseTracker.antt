-- ===== src/PhaseTracker.antt =====
-- The tracking of the flight phase with hysteresis (`update` of src/atc/flight_phase.cpp).
pub mod Guarded
use xp_wellys_devfr_atc.Base.{Bool, true, false, not, ◌&&◌, ◌||◌, String, if◌then◌else◌}
use xp_wellys_devfr_atc.Double.{Double, ◌<?◌, add, whole}
use xp_wellys_devfr_atc.Context.{XplaneContext}
use xp_wellys_devfr_atc.FlightPhase.{
  FlightPhase, FlightRules, HysteresisConfig, parked, pattern, final_approach, landing_roll,
  takeoff_roll, phase_eq, is_airborne, is_on_ground,
}
use xp_wellys_devfr_atc.FlightPhase.Detect.{detect_raw}
use xp_wellys_devfr_atc.Machine.{Machine, set_was_airborne}
use xp_wellys_devfr_atc.World.{World, PhaseState, effective_runway}
use xp_wellys_devfr_atc.Env.{Env}

abbrev pub swaps_final : FlightPhase → FlightPhase → Bool
swaps_final from to =
    (phase_eq from pattern && phase_eq to final_approach)
    || (phase_eq from final_approach && phase_eq to pattern)

unfoldable pub needs_hysteresis : FlightPhase → FlightPhase → Bool
unfolding is_on_ground
needs_hysteresis from to =
    if is_on_ground from && not (is_on_ground to)
    then true
    else if not (is_on_ground from) && phase_eq to landing_roll
    then true
    else if swaps_final from to
    then true
    else false

-- `was_airborne_` behind a transition into `raw`.
unfoldable pub latch_airborne : FlightPhase → Bool → Bool
unfolding is_airborne is_on_ground
latch_airborne raw was =
    if is_airborne raw
    then true
    else if is_on_ground raw && not (phase_eq raw takeoff_roll) && not (phase_eq raw landing_roll)
    then false
    else was

module _ {F : Type 0} ⦃d : Double F⦄ where
  unfoldable pub hysteresis_duration : HysteresisConfig F → FlightPhase → FlightPhase → F
  unfolding is_on_ground
  hysteresis_duration h from to =
      if is_on_ground from && not (is_on_ground to)
      then h.ground_to_airborne_sec
      else if not (is_on_ground from) && phase_eq to landing_roll
      then h.airborne_to_landing_sec
      else if swaps_final from to
      then whole 3
      else whole 0

  abbrev pub fresh_phase : PhaseState F
  fresh_phase = record {
    current_phase = parked;
    candidate_phase = parked;
    candidate_timer = whole 0;
    was_airborne = false;
  }

  -- The candidate's timer in this frame.
  unfoldable pub candidate_time : FlightPhase → F → PhaseState F → F
  unfolding needs_hysteresis
  candidate_time raw dt s =
      let started = if phase_eq raw s.candidate_phase then s.candidate_timer else whole 0 in
      if needs_hysteresis s.current_phase raw then add started dt else started

  -- The phase automaton, given the raw phase.
  unfoldable pub advance_phase : HysteresisConfig F → FlightPhase → F → PhaseState F → PhaseState F
  unfolding candidate_time latch_airborne hysteresis_duration needs_hysteresis
  advance_phase h raw dt s =
      if phase_eq raw s.current_phase
      then record s { candidate_phase = raw; candidate_timer = whole 0 }
      else if needs_hysteresis s.current_phase raw
          && candidate_time raw dt s <? hysteresis_duration h s.current_phase raw
      then record s { candidate_phase = raw; candidate_timer = candidate_time raw dt s }
      else record {
        current_phase = raw;
        candidate_phase = raw;
        candidate_timer = candidate_time raw dt s;
        was_airborne = latch_airborne raw s.was_airborne;
      }

  unfoldable pub note_airborne : FlightPhase → Machine F → Machine F
  note_airborne phase m = if is_airborne phase then set_was_airborne true m else m

  -- The flag of the machine is set before the tracking, and again behind a transition.
  unfoldable pub update : Env F → XplaneContext F → F → World F → World F
  unfolding advance_phase
  update env ctx dt w =
      let raw =
        detect_raw env.rules.thresholds (effective_runway w.machine ctx) w.flight.was_airborne
          ctx in
      let flight = advance_phase env.rules.hysteresis raw dt w.flight in
      record w {
        flight = flight;
        machine =
            note_airborne flight.current_phase (note_airborne w.flight.current_phase w.machine);
      }
