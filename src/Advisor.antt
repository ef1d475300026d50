-- ===== src/Advisor.antt =====
-- The traffic advisor (src/atc/traffic_advisor.hpp and .cpp): which other aircraft the controller
-- calls out, and when. Targets stand in the order of the snapshot.
pub mod Spacing
use xp_wellys_devfr_atc.Base.{
  ℕ, Bool, true, false, not, ◌&&◌, ◌||◌, String, Option, none, some, List, [], ◌∷◌, ◌==◌, find,
  is_empty, if◌then◌else◌,
}
use xp_wellys_devfr_atc.Double.{Double, ◌<?◌, ◌≤?◌, add, sub, mul, lit, whole}
use xp_wellys_devfr_atc.State.{AtcState, idle, unicom_active, state_eq}
use xp_wellys_devfr_atc.Geometry.{
  deg2rad, classify_relative_track, format_altitude_info, path_intersects_cone,
}
use xp_wellys_devfr_atc.Traffic.{
  TrafficPhase, TrafficTarget, TrafficContext, taxi, takeoff, landed, traffic_phase_eq,
}

pub record UserState (F : Type 0) : Type 0 where
  pub atc_state : AtcState
  pub on_active_atc_freq : Bool
  pub lat : F
  pub lon : F
  pub alt_msl_ft : F
  pub heading_deg : F
  pub track_deg : F
  pub groundspeed_kts : F
  pub on_ground : Bool
  pub target_has_mode_c_default : Bool
  pub user_taxiing : Bool

-- The hash maps from targets to times are lists of pairs.
pub record AdvisoryHistory (F : Type 0) : Type 0 where
  pub last_issued_secs : List (ℕ × F)
  pub acknowledged_visual_secs : List (ℕ × F)
  pub last_global_emit_secs : F

pub record TrafficAdvisory : Type 0 where
  pub modes_id : ℕ
  pub vars : List (String × String)
  pub template_key : String
  pub requires_ack : Bool

module _ {F : Type 0} where
  -- `times.find(id)`.
  abbrev pub time_of : ℕ → List (ℕ × F) → Option F
  time_of id [] = none
  time_of id ((k, t) ∷ times) = if k == id then some t else time_of id times

  -- `times[id] = t`.
  abbrev pub set_time : ℕ → F → List (ℕ × F) → List (ℕ × F)
  set_time id t [] = (id, t) ∷ []
  set_time id t ((k, u) ∷ times) = if k == id then (k, t) ∷ times else (k, u) ∷ set_time id t times

module _ {F : Type 0} ⦃d : Double F⦄ where
  -- `AdvisoryHistory{}`: the last advisory is far in the past.
  unfoldable pub no_advisories : AdvisoryHistory F
  no_advisories = record {
    last_issued_secs = [];
    acknowledged_visual_secs = [];
    last_global_emit_secs = d.neg (whole 1000000000);
  }

  unfoldable pub cos_track_minus : F → F → F
  cos_track_minus track_deg bearing_deg = d.cos (mul (sub track_deg bearing_deg) deg2rad)

  unfoldable pub closure_kts : UserState F → TrafficTarget F → F
  unfolding cos_track_minus
  closure_kts user t =
      let bearing = t.bearing_from_user_deg in
      let user_along = mul user.groundspeed_kts (cos_track_minus user.track_deg bearing) in
      let tgt_along = mul t.groundspeed_kts (cos_track_minus t.track_deg bearing) in
      sub user_along tgt_along

  unfoldable pub laterally_converging : UserState F → TrafficTarget F → Bool
  laterally_converging user t =
      let diff = d.fmod (add (sub t.track_deg user.track_deg) (whole 720)) (whole 360) in
      (whole 60 ≤? diff && diff ≤? whole 120) || (whole 240 ≤? diff && diff ≤? whole 300)

  unfoldable pub in_forward_arc : F → Bool
  in_forward_arc clock_pos =
      if whole 9 ≤? clock_pos && clock_pos ≤? whole 12
      then true
      else if whole 1 ≤? clock_pos && clock_pos ≤? whole 3
      then true
      else false

  unfoldable pub gating_passes : UserState F → Bool
  gating_passes user =
      if state_eq user.atc_state idle
      then false
      else if state_eq user.atc_state unicom_active
      then false
      else user.on_active_atc_freq

  unfoldable pub target_qualifies : TrafficTarget F → UserState F → Bool
  unfolding in_forward_arc closure_kts laterally_converging
  target_qualifies t user =
      let target_on_ground = t.alt_agl_ft ≤? whole 200 in
      if t.distance_to_user_nm <? whole 2 || whole 8 <? t.distance_to_user_nm
      then false
      else if whole 1500 <? d.fabs t.altitude_diff_ft
      then false
      else if not (in_forward_arc t.clock_position)
      then false
      else if (if user.on_ground then not target_on_ground else target_on_ground)
      then false
      else if closure_kts user t ≤? whole 0 && not (laterally_converging user t)
      then false
      else true

  -- In key order.
  unfoldable pub build_advisory_vars : TrafficTarget F → UserState F → List (String × String)
  build_advisory_vars t user =
      (
        "altitude_info",
        format_altitude_info t.alt_msl_ft user.alt_msl_ft user.target_has_mode_c_default,
      )
      ∷ ("clock", d.print_fixed 0 t.clock_position)
      ∷ ("direction", classify_relative_track user.track_deg t.track_deg t.clock_position)
      ∷ ("distance", d.print_fixed 0 t.distance_to_user_nm)
      ∷ ("type", (if is_empty t.icao_type then "type unknown" else t.icao_type))
      ∷ []

  unfoldable pub side_from_clock : F → String
  side_from_clock clock_pos =
      if whole 1 ≤? clock_pos && clock_pos ≤? whole 3
      then "right"
      else if whole 9 ≤? clock_pos && clock_pos ≤? whole 11
      then "left"
      else "left"

  unfoldable pub ground_target_qualifies : TrafficTarget F → Bool
  ground_target_qualifies t =
      if lit 3 1 ≤? t.distance_to_user_nm
      then false
      else if not (traffic_phase_eq t.phase taxi)
          && not (traffic_phase_eq t.phase takeoff)
          && not (traffic_phase_eq t.phase landed)
      then false
      else true

  unfoldable pub ground_template_for : TrafficTarget F → String
  ground_template_for t =
      if whole 11 ≤? t.clock_position || t.clock_position ≤? whole 1
      then "taxi_hold_position"
      else if whole 15 ≤? t.groundspeed_kts
      then "taxi_give_way"
      else "taxi_caution"

  unfoldable pub build_ground_vars : TrafficTarget F → List (String × String)
  unfolding side_from_clock
  build_ground_vars t =
      ("side", side_from_clock t.clock_position)
      ∷ ("type", (if is_empty t.icao_type then "aircraft" else t.icao_type))
      ∷ []

  -- `found != end() && now_secs - found->second < cooldown`.
  unfoldable pub cooling_down : Option F → F → F → Bool
  cooling_down none now_secs cooldown = false
  cooling_down (some t) now_secs cooldown = sub now_secs t <? cooldown

  -- The tests of the loop of `evaluate_ground_conflict`.
  unfoldable pub conflicts : UserState F → AdvisoryHistory F → F → TrafficTarget F → Bool
  unfolding ground_target_qualifies cooling_down
  conflicts user history now_secs t =
      ground_target_qualifies t
      && path_intersects_cone user.lat user.lon user.heading_deg (whole 30) (whole 200) t.lat t.lon
          t.track_deg t.groundspeed_kts (whole 20)
      && not (cooling_down (time_of t.modes_id history.last_issued_secs) now_secs (whole 30))

  abbrev pub ground_advice : TrafficTarget F → TrafficAdvisory
  ground_advice t = record {
    modes_id = t.modes_id;
    vars = build_ground_vars t;
    template_key = ground_template_for t;
    requires_ack = false;
  }

  unfoldable pub evaluate_ground_conflict :
      TrafficContext F → UserState F → AdvisoryHistory F → F → Option TrafficAdvisory
  unfolding conflicts
  evaluate_ground_conflict traffic user history now_secs =
      if not user.user_taxiing
      then none
      else if sub now_secs history.last_global_emit_secs <? whole 15
      then none
      else elim (find (conflicts user history now_secs) traffic.targets) [
        | none ↦ none
        | some t ↦ some (ground_advice t)
      ]

  -- The tests of the loop of `evaluate`.
  unfoldable pub reportable : UserState F → AdvisoryHistory F → F → TrafficTarget F → Bool
  unfolding target_qualifies cooling_down
  reportable user history now_secs t =
      target_qualifies t user
      && not (cooling_down (time_of t.modes_id history.last_issued_secs) now_secs (whole 60))
      && not
          (cooling_down (time_of t.modes_id history.acknowledged_visual_secs) now_secs (whole 300))

  abbrev pub airborne_advice : UserState F → TrafficTarget F → TrafficAdvisory
  airborne_advice user t = record {
    modes_id = t.modes_id;
    vars = build_advisory_vars t user;
    template_key = "traffic_advisory";
    requires_ack = true;
  }

  unfoldable pub evaluate_airborne :
      TrafficContext F → UserState F → AdvisoryHistory F → F → Option TrafficAdvisory
  unfolding gating_passes reportable
  evaluate_airborne traffic user history now_secs =
      if not (gating_passes user)
      then none
      else if sub now_secs history.last_global_emit_secs <? whole 20
      then none
      else elim (find (reportable user history now_secs) traffic.targets) [
        | none ↦ none
        | some t ↦ some (airborne_advice user t)
      ]

  unfoldable pub evaluate :
      TrafficContext F → UserState F → AdvisoryHistory F → F → Option TrafficAdvisory
  unfolding evaluate_ground_conflict evaluate_airborne
  evaluate traffic user history now_secs =
      elim (evaluate_ground_conflict traffic user history now_secs) [
        | some ground ↦ some ground
        | none ↦ evaluate_airborne traffic user history now_secs
      ]

module _ {F : Type 0} where
  unfoldable pub mark_emitted : ℕ → F → AdvisoryHistory F → AdvisoryHistory F
  mark_emitted id now_secs history = record history {
    last_issued_secs = set_time id now_secs history.last_issued_secs;
    last_global_emit_secs = now_secs;
  }

  unfoldable pub mark_acknowledged_visual : ℕ → F → AdvisoryHistory F → AdvisoryHistory F
  mark_acknowledged_visual id now_secs history = record history {
    acknowledged_visual_secs = set_time id now_secs history.acknowledged_visual_secs;
  }
