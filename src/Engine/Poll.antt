-- ===== src/Engine/Poll.antt =====
-- The unsolicited calls: the go-around and the traffic advisory (src/atc/engine.cpp). `none` is
-- `false`.
use xp_wellys_devfr_atc.Base.{
  Bool, true, false, not, ◌||◌, String, Option, none, some, [], if◌then◌else◌,
}
use xp_wellys_devfr_atc.Double.{Double, ◌<?◌, sub, whole}
use xp_wellys_devfr_atc.State.{AtcState, state_eq}
use xp_wellys_devfr_atc.Radio.{FrequencyType, frequency_eq}
use xp_wellys_devfr_atc.Context.{XplaneContext}
use xp_wellys_devfr_atc.Geometry.{distance_nm}
use xp_wellys_devfr_atc.Landing.{ActiveRunway, compute_landing_sequence}
use xp_wellys_devfr_atc.FlightPhase.{FlightPhase, phase_eq}
use xp_wellys_devfr_atc.Dialog.{on_advisory_emitted}
use xp_wellys_devfr_atc.Dialog.Pilot.{is_awaiting}
use xp_wellys_devfr_atc.World.{World}
use xp_wellys_devfr_atc.Env.{Env}
use xp_wellys_devfr_atc.Flows.Pattern.{resolve_active_runway}
use xp_wellys_devfr_atc.Process.{render_traffic_advisory}
use xp_wellys_devfr_atc.Advisor.{UserState, TrafficAdvisory, evaluate, mark_emitted}
use xp_wellys_devfr_atc.Engine.{Plugin}

module _ {F : Type 0} ⦃d : Double F⦄ where
  -- The engine's own copy of the pattern flow's function; the two bodies are alike.
  unfoldable pub resolve_active_runway_for_go_around : XplaneContext F → Option (ActiveRunway F)
  resolve_active_runway_for_go_around ctx = resolve_active_runway ctx

  -- Gates 4 and 5: the user is near the threshold of a runway that is occupied.
  unfoldable pub blocked_ahead : Env F → XplaneContext F → ActiveRunway F → Bool
  blocked_ahead env ctx rwy =
      if whole 1 <? distance_nm rwy.threshold_lat rwy.threshold_lon ctx.latitude ctx.longitude
      then false
      else (compute_landing_sequence env.traffic
          (record { lat = ctx.latitude; lon = ctx.longitude }) rwy).runway_occupied

  unfoldable pub must_go_around : Env F → XplaneContext F → F → Plugin F → Bool
  unfolding blocked_ahead resolve_active_runway_for_go_around
  must_go_around env ctx now_secs p =
      if not (state_eq p.world.machine.state AtcState.landing_cleared)
      then false
      else if sub now_secs p.counters.last_go_around_emit_secs <? whole 60
      then false
      else elim (resolve_active_runway_for_go_around ctx) [
        | none ↦ false
        | some rwy ↦ blocked_ahead env ctx rwy
      ]

  unfoldable pub poll_go_around : Env F → XplaneContext F → F → Plugin F → Plugin F × Option String
  unfolding must_go_around
  poll_go_around env ctx now_secs p =
      if must_go_around env ctx now_secs p
      then (
        record p { counters = record p.counters { last_go_around_emit_secs = now_secs } },
        some (render_traffic_advisory env [] ctx "go_around_traffic_runway" p.world.machine),
      )
      else (p, none)

  -- The user as the advisor sees it; the ground track is the heading.
  unfoldable pub user_state : XplaneContext F → World F → UserState F
  user_state ctx w = record {
    atc_state = w.machine.state;
    on_active_atc_freq =
        frequency_eq ctx.frequency_type FrequencyType.tower
        || frequency_eq ctx.frequency_type FrequencyType.ground;
    lat = ctx.latitude;
    lon = ctx.longitude;
    alt_msl_ft = ctx.altitude_ft_msl;
    heading_deg = ctx.heading_true;
    track_deg = ctx.heading_true;
    groundspeed_kts = ctx.groundspeed_kts;
    on_ground = ctx.on_ground;
    target_has_mode_c_default = true;
    user_taxiing = phase_eq w.flight.current_phase FlightPhase.taxi;
  }

  -- What an advisory changes.
  unfoldable pub emit : F → TrafficAdvisory → Plugin F → Plugin F
  emit now_secs adv p = record p {
    counters = record p.counters {
      advisory_history = mark_emitted adv.modes_id now_secs p.counters.advisory_history;
    };
    world = record p.world {
      dialog =
          if adv.requires_ack
          then on_advisory_emitted adv.modes_id p.world.dialog
          else p.world.dialog;
    };
  }

  -- The advisory is given with its text.
  unfoldable pub poll_traffic_advisory :
      Env F → XplaneContext F → F → Plugin F → Plugin F × Option (TrafficAdvisory × String)
  poll_traffic_advisory env ctx now_secs p =
      if is_awaiting p.world.dialog.state
      then (p, none)
      else elim (evaluate env.traffic (user_state ctx p.world) p.counters.advisory_history
          now_secs) [
            | none ↦ (p, none)
            | some adv ↦ (
              emit now_secs adv p,
              some (adv, render_traffic_advisory env adv.vars ctx adv.template_key p.world.machine),
            )
          ]
