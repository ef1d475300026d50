-- ===== src/Flows/Pattern.antt =====
-- The pattern flow (src/atc/flows/pattern_flow.cpp): its states, the active runway, and the overlay
-- of the landing sequence on a landing clearance.
use xp_wellys_devfr_atc.Base.{
  Bool, true, false, not, String, Option, none, some, List, [], ◌∷◌, leb, is_empty, text_eq, insert,
  if◌then◌else◌,
}
use xp_wellys_devfr_atc.Double.{Double, ◌<?◌, whole}
use xp_wellys_devfr_atc.State.{AtcState, state_eq}
use xp_wellys_devfr_atc.Context.{XplaneContext, RunwayInfo, RunwayEnd}
use xp_wellys_devfr_atc.Templates.{Templates, fill}
use xp_wellys_devfr_atc.Templates
use xp_wellys_devfr_atc.Landing.{ActiveRunway, SequenceResult, compute_landing_sequence, leg_label}
use xp_wellys_devfr_atc.Env.{Env}
use xp_wellys_devfr_atc.Vars.{Vars}
use xp_wellys_devfr_atc.Response.{Response}

pub data FlowState : Type 0 where
  departure_cleared pattern_entry landing_cleared touch_and_go_cleared : FlowState

unfoldable pub from_atc_state : AtcState → FlowState
from_atc_state AtcState.departure_cleared = FlowState.departure_cleared
from_atc_state AtcState.pattern_entry = FlowState.pattern_entry
from_atc_state AtcState.landing_cleared = FlowState.landing_cleared
from_atc_state AtcState.touch_and_go_cleared = FlowState.touch_and_go_cleared
from_atc_state _ = FlowState.departure_cleared

unfoldable pub to_atc_state : FlowState → AtcState
to_atc_state FlowState.departure_cleared = AtcState.departure_cleared
to_atc_state FlowState.pattern_entry = AtcState.pattern_entry
to_atc_state FlowState.landing_cleared = AtcState.landing_cleared
to_atc_state FlowState.touch_and_go_cleared = AtcState.touch_and_go_cleared

unfoldable pub is_pattern_state : AtcState → Bool
is_pattern_state AtcState.departure_cleared = true
is_pattern_state AtcState.pattern_entry = true
is_pattern_state AtcState.landing_cleared = true
is_pattern_state AtcState.touch_and_go_cleared = true
is_pattern_state _ = false

-- The overlay template of the given key, filled; the response is kept where it is empty.
unfoldable pub render_overlay : Templates → String → Vars → Response → Response
render_overlay t template_key vars resp =
    let tmpl = Templates.lookup t true "Pattern/LANDING_CLEARED" template_key false in
    if is_empty tmpl.response_template
    then resp
    else record resp { text = fill tmpl.response_template vars }

module _ {F : Type 0} ⦃d : Double F⦄ where
  unfoldable pub runway_at : RunwayInfo F → RunwayEnd F → ActiveRunway F
  runway_at rw end = record {
    threshold_lat = end.lat;
    threshold_lon = end.lon;
    heading_deg = end.heading_deg;
    length_m = if rw.length_m <? whole 500 then whole 2500 else rw.length_m;
    designator = end.number;
  }

  -- The loop over the runways: the first end with the active designator.
  unfoldable pub resolve_from : String → List (RunwayInfo F) → Option (ActiveRunway F)
  unfolding runway_at
  resolve_from active [] = none
  resolve_from active (rw ∷ rws) =
      let rest = resolve_from active rws in
      if text_eq rw.end1.number active
      then some (runway_at rw rw.end1)
      else if text_eq rw.end2.number active
      then some (runway_at rw rw.end2)
      else rest

  unfoldable pub resolve_active_runway : XplaneContext F → Option (ActiveRunway F)
  unfolding resolve_from
  resolve_active_runway ctx =
      if is_empty ctx.active_runway then none else resolve_from ctx.active_runway ctx.runways

  -- The two rewrites, given the sequence. `std::to_string` of the position is its `%d`.
  unfoldable pub overlay :
      Env F → XplaneContext F → ActiveRunway F → SequenceResult F → Vars → Response → Response
  unfolding render_overlay
  overlay env ctx rwy seq vars resp =
      if seq.runway_occupied
      then record (render_overlay env.templates "continue_approach_traffic_runway" vars resp) {
        next_state = AtcState.landing_cleared;
      }
      else elim seq.follow_target [
        | none ↦ resp
        | some follow ↦
            let dir = env.vrp_pattern_direction ctx.nearest_airport_id ctx.active_runway in
            let type = if is_empty follow.icao_type then "traffic" else follow.icao_type in
            if leb 2 seq.user_position
            then render_overlay env.templates "number_to_land_follow"
                (insert "seq_position" (leg_label follow rwy dir) (
                  insert "seq_type" type
                    (insert "seq_number" (d.print_int (whole seq.user_position)) vars)))
                resp
            else resp
      ]

  unfoldable pub apply_landing_sequence : Env F → XplaneContext F → Vars → Response → Response
  unfolding overlay
  apply_landing_sequence env ctx vars resp =
      if not (state_eq resp.next_state AtcState.landing_cleared)
      then resp
      else elim (resolve_active_runway ctx) [
        | none ↦ resp
        | some rwy ↦
            overlay env ctx rwy
              (compute_landing_sequence env.traffic
                (record { lat = ctx.latitude; lon = ctx.longitude }) rwy)
              vars resp
      ]
