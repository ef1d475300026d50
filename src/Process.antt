-- ===== src/Process.antt =====
-- The main pipeline (`process` of src/atc/atc_state_machine.cpp): the guards in the order of the
-- source, the template response, the landing overlay, the strict readback check and the hooks.
pub mod Stages
pub mod Airborne
pub mod Repeat
use xp_wellys_devfr_atc.Base.{
  Bool, true, false, not, ◌&&◌, ◌||◌, String, Option, none, some, List, [], ◌∷◌, is_empty, concat,
  text_eq, insert, if◌then◌else◌,
}
use xp_wellys_devfr_atc.Double.{Double}
use xp_wellys_devfr_atc.State.{AtcState, state_name, state_from_name}
use xp_wellys_devfr_atc.Intent.{
  PilotMessage, intent_eq, intent_template_key, ready_for_departure, ready_for_departure_vfr,
  request_repeat, request_taxi, initial_call_ground, initial_call_tower, initial_call, unknown,
}
use xp_wellys_devfr_atc.Context.{XplaneContext}
use xp_wellys_devfr_atc.Readback.{ClearanceComponents}
use xp_wellys_devfr_atc.FlightPhase.{FlightPhase}
use xp_wellys_devfr_atc.Templates.{TemplateEntry, fill}
use xp_wellys_devfr_atc.Templates
use xp_wellys_devfr_atc.Machine.{Machine, set_was_airborne, set_readback_pending, set_last_now_secs}
use xp_wellys_devfr_atc.World.{World}
use xp_wellys_devfr_atc.Env.{Env}
use xp_wellys_devfr_atc.Vars.{Vars, build_vars, known_callsign}
use xp_wellys_devfr_atc.Response.{
  Response, Outcome, reply, proceed, Flow, ◌>>=◌, ◌>>◌, modify, read, pure,
}
use xp_wellys_devfr_atc.Clearance.{build_clearance_components, apply_bzf_strict_check}
use xp_wellys_devfr_atc.Flows.Pattern.{is_pattern_state, apply_landing_sequence}
use xp_wellys_devfr_atc.Flows.CrossCountry.{check_airport_change}
use xp_wellys_devfr_atc.Flows.Corrections.{
  apply_state_reverts, tower_only_initial_collapse, apply_state_frequency_validity,
  apply_frequency_auto_corrections,
}
use xp_wellys_devfr_atc.Flows.Ground.{
  handle_negative_correction, handle_info_flow, handle_unicom_flow, handle_frequency_hint,
  handle_idle_redirects, check_phase_precondition, check_freq_precondition,
  apply_initial_call_conformance,
}
use xp_wellys_devfr_atc.Hooks.{apply_post_transition_hooks}

abbrev pub starts_departure : PilotMessage → Bool
starts_departure msg =
    intent_eq msg.intent request_taxi
    || intent_eq msg.intent initial_call_ground
    || intent_eq msg.intent initial_call_tower
    || intent_eq msg.intent initial_call

unfoldable pub template_response : TemplateEntry → Vars → Response
template_response tmpl vars = record {
  text = fill tmpl.response_template vars;
  next_state = state_from_name tmpl.next_state;
  requires_readback = tmpl.requires_readback;
}

abbrev merge : Vars → Vars → Vars
merge [] vars = vars
merge ((k, v) ∷ more) vars = merge more (insert k v vars)

abbrev synthetic_msg : PilotMessage
synthetic_msg = record {
  raw_transcript = "";
  intent = unknown;
  callsign = "";
  runway = "";
  vrp_name = "";
  destination = "";
  has_position = false;
}

module _ {F : Type 0} where
  -- A declared cross-country flight promotes the bare departure call.
  unfoldable pub promote : PilotMessage → Machine F → PilotMessage
  promote msg m =
      if intent_eq msg.intent ready_for_departure
        && m.flight_intent_declared
        && m.flight_intent_cross_country
      then record msg { intent = ready_for_departure_vfr }
      else msg

  unfoldable pub repeat_text : Env F → PilotMessage → Machine F → String
  repeat_text env msg m =
      if not (is_empty m.last_tower_response_text)
      then m.last_tower_response_text
      else concat (known_callsign env m msg ∷ ", keine vorherige Anweisung zum Wiederholen." ∷ [])

  unfoldable pub handle_repeat : Env F → PilotMessage → Flow F (Unit {0})
  unfolding repeat_text
  handle_repeat env msg m =
      if intent_eq msg.intent request_repeat
      then (
        m,
        reply (record {
          text = repeat_text env msg m;
          next_state = m.state;
          requires_readback = m.readback_pending;
        }),
      )
      else (m, proceed tt)

  -- A new departure cycle on the ground.
  unfoldable pub reset_airborne : PilotMessage → XplaneContext F → Machine F → Machine F
  reset_airborne msg ctx m =
      if ctx.on_ground && starts_departure msg then set_was_airborne false m else m

  -- What follows the overlay: the strict check, or the hooks.
  unfoldable pub conclude :
      Env F → PilotMessage → XplaneContext F → Response → ClearanceComponents → Flow F Response
  conclude env msg ctx resp components m = elim (apply_bzf_strict_check env msg m) [
    | some corrective ↦ (set_readback_pending true m, reply corrective)
    | none ↦
        let (m', resp') = apply_post_transition_hooks env msg ctx resp components m in
        (m', reply resp')
  ]

module _ {F : Type 0} ⦃d : Double F⦄ where
  -- The template of the current state and the intent.
  unfoldable pub current_template :
      Env F → PilotMessage → XplaneContext F → Machine F → TemplateEntry
  current_template env msg ctx m =
      Templates.lookup env.templates true (state_name m.departure_type m.state)
        (intent_template_key msg.intent) ctx.tower_only

  unfoldable pub with_overlay : Env F → XplaneContext F → Vars → Response → Response
  with_overlay env ctx vars resp =
      if is_pattern_state resp.next_state then apply_landing_sequence env ctx vars resp else resp

  unfoldable pub respond : Env F → PilotMessage → XplaneContext F → Flow F Response
  unfolding current_template template_response with_overlay
  respond env msg ctx m =
      let vars = build_vars env m msg ctx in
      let tmpl = current_template env msg ctx m in
      conclude env msg ctx (with_overlay env ctx vars (template_response tmpl vars))
        (build_clearance_components msg.intent vars tmpl.response_template) m

  -- The guards before the intent is final.
  unfoldable pub early_guards : Env F → PilotMessage → XplaneContext F → Flow F (Unit {0})
  early_guards env msg ctx = do
    handle_negative_correction env msg ctx
    handle_repeat env msg
    modify (apply_state_reverts env msg)
    handle_info_flow env msg ctx
    handle_unicom_flow env msg ctx
    handle_frequency_hint env msg ctx
    modify (apply_state_frequency_validity env ctx)
    modify (apply_frequency_auto_corrections env ctx)
    handle_idle_redirects env msg ctx

  unfoldable pub late_guards :
      Env F → FlightPhase → PilotMessage → XplaneContext F → Flow F Response
  late_guards env phase msg ctx = do
    check_phase_precondition env phase msg ctx
    check_freq_precondition env msg ctx
    modify (reset_airborne msg ctx)
    apply_initial_call_conformance env msg ctx
    respond env msg ctx

  unfoldable pub pipeline : Env F → FlightPhase → PilotMessage → XplaneContext F → Flow F Response
  pipeline env phase msg ctx = do
    early_guards env msg ctx
    collapsed ← read (tower_only_initial_collapse env ctx msg)
    late_guards env phase collapsed ctx

abbrev pub outcome_response : Outcome Response → Response
outcome_response (reply r) = r
outcome_response (proceed r) = r

module _ {F : Type 0} ⦃d : Double F⦄ where
  -- `process`. The airport check touches more than the machine; the pipeline does not.
  unfoldable pub process : Env F → PilotMessage → XplaneContext F → F → World F → World F × Response
  process env msg_in ctx now_secs w =
      let now = record w { machine = set_last_now_secs now_secs w.machine } in
      let msg = promote msg_in now.machine in
      let checked = check_airport_change ctx now_secs now in
      let (m, outcome) = pipeline env w.flight.current_phase msg ctx checked.machine in
      (record checked { machine = m }, outcome_response outcome)

  unfoldable pub render_traffic_advisory :
      Env F → Vars → XplaneContext F → String → Machine F → String
  render_traffic_advisory env advisory_vars ctx template_key m =
      fill
        (Templates.lookup env.templates true "TRAFFIC_DIALOG" template_key false).response_template
        (merge advisory_vars (build_vars env m synthetic_msg ctx))
