-- ===== src/Hooks.antt =====
-- The hooks behind the template (`apply_post_transition_hooks` of src/atc/atc_state_machine.cpp),
-- one definition for each block of the function.
pub mod Stages
pub mod Session
use xp_wellys_devfr_atc.Base.{
  Bool, true, false, not, ◌&&◌, ◌||◌, String, List, [], ◌∷◌, is_empty, concat, if◌then◌else◌,
}
use xp_wellys_devfr_atc.State.{
  AtcState, DepartureType, pattern, cross_country, idle, en_route, departure_cleared, state_eq,
  state_name, state_from_name,
}
use xp_wellys_devfr_atc.Intent.{
  PilotMessage, intent_eq, intent_template_key, readback, ready_for_departure_vfr,
}
use xp_wellys_devfr_atc.Context.{XplaneContext}
use xp_wellys_devfr_atc.Readback.{ClearanceComponents, no_clearance}
use xp_wellys_devfr_atc.FlightPhase.{get_tower_only_auto_advance}
use xp_wellys_devfr_atc.Machine.{Machine, bump_gen, transition_to}
use xp_wellys_devfr_atc.World.{release_locks}
use xp_wellys_devfr_atc.Env.{Env}
use xp_wellys_devfr_atc.Response.{Response}

unfoldable pub advanced_response : String → Response → Response
advanced_response next resp =
    if not (is_empty next) then record resp { next_state = state_from_name next } else resp

module _ {F : Type 0} where
  unfoldable pub clear_readback : Machine F → Machine F
  unfolding bump_gen
  clear_readback m = record (bump_gen m) {
    readback_pending = false;
    last_clearance_text = "";
    last_clearance_components = no_clearance;
  }

  unfoldable pub arm_readback : Response → ClearanceComponents → Machine F → Machine F
  unfolding bump_gen
  arm_readback resp components m = record (bump_gen m) {
    readback_pending = true;
    last_clearance_text = resp.text;
    last_clearance_components = components;
  }

  unfoldable pub track_readback :
      PilotMessage → Response → ClearanceComponents → Machine F → Machine F
  unfolding clear_readback arm_readback
  track_readback msg resp components m =
      if intent_eq msg.intent readback
      then clear_readback m
      else if resp.requires_readback
      then arm_readback resp components m
      else m

  -- Leaving the frequency, or a reset.
  unfoldable pub drop_stale_readback : Response → Machine F → Machine F
  unfolding clear_readback
  drop_stale_readback resp m =
      if state_eq resp.next_state en_route || state_eq resp.next_state idle
      then clear_readback m
      else m

  abbrev runway_or_default : PilotMessage → XplaneContext F → String
  runway_or_default msg ctx =
      if not (is_empty msg.runway)
      then msg.runway
      else if not (is_empty ctx.active_runway)
      then ctx.active_runway
      else "28"

  unfoldable pub lock_runway : PilotMessage → XplaneContext F → Response → Machine F → Machine F
  unfolding bump_gen
  lock_runway msg ctx resp m =
      let rwy = runway_or_default msg ctx in
      if is_empty m.assigned_runway && not (state_eq resp.next_state idle)
      then (if not (is_empty rwy) then record (bump_gen m) { assigned_runway = rwy } else m)
      else m

  unfoldable pub lock_callsign : PilotMessage → Response → Machine F → Machine F
  unfolding bump_gen
  lock_callsign msg resp m =
      if is_empty m.session_callsign
        && not (is_empty msg.callsign)
        && not (state_eq resp.next_state idle)
      then record (bump_gen m) { session_callsign = msg.callsign }
      else m

  -- The departure type behind the transition out of `prev`.
  unfoldable pub track_departure : AtcState → PilotMessage → Response → Machine F → Machine F
  unfolding bump_gen
  track_departure prev msg resp m =
      if state_eq resp.next_state departure_cleared && not (state_eq prev departure_cleared)
      then record (bump_gen m) {
        departure_type =
            if intent_eq msg.intent ready_for_departure_vfr then cross_country else pattern;
      }
      else if state_eq prev departure_cleared && not (state_eq resp.next_state departure_cleared)
      then record (bump_gen m) { departure_type = pattern }
      else m

  unfoldable pub apply_transition : PilotMessage → Response → Machine F → Machine F
  unfolding track_departure
  apply_transition msg resp m =
      if not (is_empty resp.text)
      then track_departure m.state msg resp (
          transition_to resp.next_state (concat ("process:" ∷ intent_template_key msg.intent ∷ []))
            m)
      else m

  unfoldable pub end_session : Response → Machine F → Machine F
  end_session resp m = if state_eq resp.next_state idle then release_locks m else m

  -- The state that a tower-only field advances to; "" if none.
  unfoldable pub advance_name : Env F → XplaneContext F → Machine F → String
  advance_name env ctx m =
      if ctx.tower_only
      then get_tower_only_auto_advance env.rules (state_name m.departure_type m.state)
      else ""

  unfoldable pub advance_tower_only : String → Machine F → Machine F
  advance_tower_only next m =
      if not (is_empty next)
      then transition_to (state_from_name next) "tower_only_auto_advance" m
      else m

  unfoldable pub remember_response : Response → Machine F → Machine F
  unfolding bump_gen
  remember_response resp m =
      if not (is_empty resp.text)
      then record (bump_gen m) { last_tower_response_text = resp.text }
      else m

  -- The blocks before the tower-only advance.
  unfoldable pub settle :
      PilotMessage → XplaneContext F → Response → ClearanceComponents → Machine F → Machine F
  settle msg ctx resp components m = end_session resp (
      apply_transition msg resp (
        lock_callsign msg resp (
          lock_runway msg ctx resp
            (drop_stale_readback resp (track_readback msg resp components m)))))

  unfoldable pub apply_post_transition_hooks :
      Env F
      → PilotMessage
      → XplaneContext F
      → Response
      → ClearanceComponents
      → Machine F
      → Machine F × Response
  apply_post_transition_hooks env msg ctx resp components m =
      let settled = settle msg ctx resp components m in
      let next = advance_name env ctx settled in
      (remember_response resp (advance_tower_only next settled), advanced_response next resp)
