-- ===== src/World.antt =====
-- The mutable state of the dialog: the machine (src/atc/atc_state_machine.cpp), the airport that
-- the cross-country flow has seen last (src/atc/flows/crosscountry_flow.cpp), the traffic dialog
-- (src/atc/traffic_dialog.cpp) and the detected flight phase (src/atc/flight_phase.cpp); and the
-- lifecycle of the machine.
pub mod Fresh
use xp_wellys_devfr_atc.Base.{
  Bool, true, false, not, ◌&&◌, ◌||◌, String, [], text_eq, is_empty, if◌then◌else◌,
}
use xp_wellys_devfr_atc.Double.{Double, whole, ◌≤?◌}
use xp_wellys_devfr_atc.State.{
  AtcState, idle, ground_contact, tower_contact, pattern_entry, en_route, pattern, state_eq,
}
use xp_wellys_devfr_atc.Readback.{no_clearance}
use xp_wellys_devfr_atc.Dialog.{Dialog}
use xp_wellys_devfr_atc.Dialog
use xp_wellys_devfr_atc.FlightPhase.{FlightPhase, is_airborne}
use xp_wellys_devfr_atc.Geometry.{distance_nm}
use xp_wellys_devfr_atc.Context.{XplaneContext}
use xp_wellys_devfr_atc.Settings.{Settings}
use xp_wellys_devfr_atc.Machine.{Machine, bump_gen, transition_to}

pub record PhaseState (F : Type 0) : Type 0 where
  pub current_phase : FlightPhase
  pub candidate_phase : FlightPhase
  pub candidate_timer : F
  pub was_airborne : Bool

pub record World (F : Type 0) : Type 0 where
  pub machine : Machine F
  pub last_airport_id : String
  pub dialog : Dialog
  pub flight : PhaseState F

module _ {F : Type 0} where
  abbrev pub on_machine : (Machine F → Machine F) → World F → World F
  on_machine f w = record w { machine = f w.machine }

module _ {F : Type 0} ⦃d : Double F⦄ where
  -- The sweep that `init`, `stop` and `reset` share; `last_tower_response_text_` is not in it.
  unfoldable pub sweep : Machine F → Machine F
  unfolding bump_gen
  sweep m = record (bump_gen m) {
    state = idle;
    readback_pending = false;
    was_airborne = false;
    assigned_runway = "";
    session_callsign = "";
    departure_type = pattern;
    flight_intent_declared = false;
    flight_intent_cross_country = false;
    flight_intent_destination = "";
    history = [];
    last_now_secs = whole 0;
    last_clearance_text = "";
    last_clearance_components = no_clearance;
  }

  unfoldable pub init : Settings F → World F → World F
  unfolding sweep
  init settings w =
      let m = sweep w.machine in
      record w {
        machine =
            if text_eq settings.start_mode "ready_for_takeoff"
            then record m { state = tower_contact }
            else m;
      }

  unfoldable pub stop : World F → World F
  unfolding sweep
  stop w = record w { machine = record (sweep w.machine) { last_tower_response_text = "" } }

  unfoldable pub reset : World F → World F
  unfolding sweep
  reset w = record w {
    machine = record (sweep w.machine) { last_tower_response_text = "" };
    last_airport_id = "";
  }

  unfoldable pub begin_fresh_flight : Bool → World F → World F
  unfolding reset
  begin_fresh_flight on_ground w =
      let state = w.machine.state in
      if on_ground && (state_eq state idle || state_eq state ground_contact) then reset w else w

  unfoldable pub is_near_airport : XplaneContext F → Bool
  is_near_airport ctx =
      if not (d.eq ctx.airport_lat (whole 0)) || not (d.eq ctx.airport_lon (whole 0))
      then distance_nm ctx.latitude ctx.longitude ctx.airport_lat ctx.airport_lon ≤? whole 5
      else true

  -- What `disregard` does before it looks at the phase.
  unfoldable pub drop_dialog : F → Machine F → Machine F
  unfolding bump_gen
  drop_dialog now_secs m = record (bump_gen m) {
    last_now_secs = now_secs;
    readback_pending = false;
    last_clearance_text = "";
    last_clearance_components = no_clearance;
    last_tower_response_text = "";
  }

  unfoldable pub disregard_machine : XplaneContext F → FlightPhase → F → Machine F → Machine F
  unfolding drop_dialog is_near_airport
  disregard_machine ctx phase now_secs m =
      let dropped = drop_dialog now_secs m in
      if not (is_airborne phase)
      then record (transition_to idle "disregard_on_ground" dropped) {
        assigned_runway = "";
        session_callsign = "";
        departure_type = pattern;
      }
      else transition_to (if is_near_airport ctx then pattern_entry else en_route)
          (if is_near_airport ctx
            then "disregard_airborne_near_airport"
            else "disregard_airborne_transit")
          dropped

  unfoldable pub disregard : XplaneContext F → FlightPhase → F → World F → World F
  unfolding disregard_machine
  disregard ctx phase now_secs w = record w {
    machine = disregard_machine ctx phase now_secs w.machine;
    dialog = Dialog.init;
  }

module _ {F : Type 0} where
  unfoldable pub release_runway : Machine F → Machine F
  unfolding bump_gen
  release_runway m =
      if not (is_empty m.assigned_runway) then record (bump_gen m) { assigned_runway = "" } else m

  unfoldable pub release_callsign : Machine F → Machine F
  unfolding bump_gen
  release_callsign m =
      if not (is_empty m.session_callsign) then record (bump_gen m) { session_callsign = "" } else m

  -- The two releases of an IDLE return.
  unfoldable pub release_locks : Machine F → Machine F
  unfolding release_runway release_callsign
  release_locks m = release_callsign (release_runway m)

  unfoldable pub set_state : AtcState → Machine F → Machine F
  unfolding release_locks
  set_state state m =
      let m1 = transition_to state "external_set_state" m in
      if state_eq state idle then release_locks m1 else m1

  unfoldable pub effective_runway : Machine F → XplaneContext F → String
  effective_runway m ctx =
      if is_empty m.assigned_runway then ctx.active_runway else m.assigned_runway
