-- ===== src/Machine.antt =====
-- The state of the machine and its mutators (src/atc/atc_state_machine.cpp, the struct
-- `AtcMachineState` and the bridge `internal`). A function that mutates `g_state` returns the new
-- record. The log and the thread assertions are left out.
pub mod Discipline
pub mod Transition
pub mod Generation
pub mod History
use xp_wellys_devfr_atc.Base.{
  ℕ, ◌+◌, ◌%◌, Bool, true, false, String, List, [], ◌∷◌, ◌++◌, length, ltb, bool_eq, if◌then◌else◌,
}
use xp_wellys_devfr_atc.State.{AtcState, DepartureType, state_eq}
use xp_wellys_devfr_atc.Readback.{ClearanceComponents}

pub record StateHistoryEntry (F : Type 0) : Type 0 where
  pub state : AtcState
  pub reason : String
  pub timestamp_secs : F

pub record Machine (F : Type 0) : Type 0 where
  pub gen : ℕ  -- uint64_t
  pub state : AtcState
  pub readback_pending : Bool
  pub was_airborne : Bool
  pub assigned_runway : String
  pub session_callsign : String
  pub last_clearance_text : String
  pub last_clearance_components : ClearanceComponents
  pub last_tower_response_text : String
  pub departure_type : DepartureType
  pub flight_intent_declared : Bool
  pub flight_intent_cross_country : Bool
  pub flight_intent_destination : String
  pub history : List (StateHistoryEntry F)
  pub last_now_secs : F
  pub active_correction_key : String
  pub correction_timer : F

abbrev pub u64_mod : ℕ
u64_mod = 18_446_744_073_709_551_616

abbrev pub history_cap : ℕ
history_cap = 8

module _ {F : Type 0} where
  unfoldable pub bump_gen : Machine F → Machine F
  bump_gen m = record m { gen = (m.gen + 1) % u64_mod }

  -- `while (history_.size() > kHistoryCap) history_.pop_front();`
  unfoldable pub drop_oldest : List (StateHistoryEntry F) → List (StateHistoryEntry F)
  drop_oldest [] = []
  drop_oldest (e ∷ es) =
      let rest = drop_oldest es in if ltb history_cap (length (e ∷ es)) then rest else e ∷ es

  unfoldable pub transition_to : AtcState → String → Machine F → Machine F
  unfolding bump_gen
  transition_to next reason m = if state_eq next m.state then m else record (bump_gen m) {
    state = next;
    history = drop_oldest (
        m.history
        ++ record { state = m.state; reason = reason; timestamp_secs = m.last_now_secs } ∷ []);
  }

  unfoldable pub set_readback_pending : Bool → Machine F → Machine F
  unfolding bump_gen
  set_readback_pending v m = record (bump_gen m) { readback_pending = v }

  unfoldable pub set_was_airborne : Bool → Machine F → Machine F
  unfolding bump_gen
  set_was_airborne v m =
      if bool_eq m.was_airborne v then m else record (bump_gen m) { was_airborne = v }

  unfoldable pub set_assigned_runway : String → Machine F → Machine F
  unfolding bump_gen
  set_assigned_runway rwy m = record (bump_gen m) { assigned_runway = rwy }

  unfoldable pub clear_assigned_runway : Machine F → Machine F
  unfolding bump_gen
  clear_assigned_runway m = record (bump_gen m) { assigned_runway = "" }

  unfoldable pub set_session_callsign : String → Machine F → Machine F
  unfolding bump_gen
  set_session_callsign cs m = record (bump_gen m) { session_callsign = cs }

  unfoldable pub clear_session_callsign : Machine F → Machine F
  unfolding bump_gen
  clear_session_callsign m = record (bump_gen m) { session_callsign = "" }

  unfoldable pub set_departure_type : DepartureType → Machine F → Machine F
  unfolding bump_gen
  set_departure_type t m = record (bump_gen m) { departure_type = t }

  -- A heartbeat: no bump.
  unfoldable pub set_last_now_secs : F → Machine F → Machine F
  set_last_now_secs t m = record m { last_now_secs = t }

  unfoldable pub set_flight_intent_cross_country : String → Machine F → Machine F
  unfolding bump_gen
  set_flight_intent_cross_country destination m = record (bump_gen m) {
    flight_intent_declared = true;
    flight_intent_cross_country = true;
    flight_intent_destination = destination;
  }

  unfoldable pub set_flight_intent_pattern : Machine F → Machine F
  unfolding bump_gen
  set_flight_intent_pattern m = record (bump_gen m) {
    flight_intent_declared = true;
    flight_intent_cross_country = false;
    flight_intent_destination = "";
  }
