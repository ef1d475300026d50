-- ===== src/Flows/CrossCountry.antt =====
-- The cross-country flow (src/atc/flows/crosscountry_flow.cpp): its states and the reset when the
-- nearest airport changes en route. Its landing overlay does nothing.
pub mod Leave
use xp_wellys_devfr_atc.Base.{Bool, true, false, not, text_eq, is_empty, if◌then◌else◌}
use xp_wellys_devfr_atc.State.{AtcState, idle, pattern, state_eq}
use xp_wellys_devfr_atc.Context.{XplaneContext}
use xp_wellys_devfr_atc.Machine.{
  Machine, transition_to, set_readback_pending, clear_assigned_runway, set_departure_type,
  set_last_now_secs,
}
use xp_wellys_devfr_atc.World.{World}

pub data FlowState : Type 0 where
  departure_cleared en_route : FlowState

unfoldable pub from_atc_state : AtcState → FlowState
from_atc_state AtcState.departure_cleared = FlowState.departure_cleared
from_atc_state AtcState.en_route = FlowState.en_route
from_atc_state _ = FlowState.en_route

unfoldable pub to_atc_state : FlowState → AtcState
to_atc_state FlowState.departure_cleared = AtcState.departure_cleared
to_atc_state FlowState.en_route = AtcState.en_route

unfoldable pub is_xc_state : AtcState → Bool
is_xc_state AtcState.en_route = true
is_xc_state _ = false

module _ {F : Type 0} where
  -- The four calls of the reset.
  unfoldable pub leave_airport : Machine F → Machine F
  leave_airport m = set_departure_type pattern (
      clear_assigned_runway
        (set_readback_pending false (transition_to idle "airport_change_en_route" m)))

  unfoldable pub check_airport_change : XplaneContext F → F → World F → World F
  unfolding leave_airport
  check_airport_change ctx now_secs w =
      let m = set_last_now_secs now_secs w.machine in
      let seen = record w { machine = m; last_airport_id = ctx.nearest_airport_id } in
      if is_empty ctx.nearest_airport_id
      then record w { machine = m }
      else if not (state_eq m.state AtcState.en_route)
      then seen
      else if is_empty w.last_airport_id
      then seen
      else if text_eq ctx.nearest_airport_id w.last_airport_id
      then record w { machine = m }
      else record seen { machine = leave_airport m }
