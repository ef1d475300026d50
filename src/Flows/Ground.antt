-- ===== src/Flows/Ground.antt =====
-- The guards of the pipeline that reply (src/atc/flows/ground_operations.cpp), each a stage that
-- replies or lets the call proceed. The log is left out.
pub mod Stages
pub mod FirstCall
use xp_wellys_devfr_atc.Base.{
  ℕ, Bool, true, false, not, ◌&&◌, ◌||◌, String, Option, none, some, List, [], ◌∷◌, ◌++◌, any, find,
  is_empty, text_eq, concat, or_empty, lookup, if◌then◌else◌,
}
use xp_wellys_devfr_atc.Phraseology.Spoken.{parse_spoken_number}
use xp_wellys_devfr_atc.Double.{Double}
use xp_wellys_devfr_atc.State.{
  AtcState, idle, ground_contact, taxi_cleared, tower_contact, departure_cleared, pattern_entry,
  landing_cleared, touch_and_go_cleared, unicom_active, en_route, pattern, state_eq, state_name,
  state_from_name,
}
use xp_wellys_devfr_atc.Radio.{FrequencyType, frequency_eq}
use xp_wellys_devfr_atc.Intent.{
  PilotMessage, intent_eq, intent_template_key, negative_correction, readback, initial_call_tower,
  initial_call_ground,
}
use xp_wellys_devfr_atc.Context.{XplaneContext, is_towered}
use xp_wellys_devfr_atc.FlightPhase.{
  FlightPhase, FlightRules, FrequencyHint, IdleRedirect, StateRevert, FrequencyAutoCorrection,
  check_precondition, check_frequency_precondition, get_frequency_auto_corrections,
  get_state_frequency_validity, mentions,
}
use xp_wellys_devfr_atc.Templates.{TemplateEntry, fill}
use xp_wellys_devfr_atc.Templates
use xp_wellys_devfr_atc.Machine.{Machine, transition_to, set_departure_type}
use xp_wellys_devfr_atc.Env.{Env}
use xp_wellys_devfr_atc.Vars.{Vars, build_vars}
use xp_wellys_devfr_atc.Response.{Response, Outcome, reply, proceed, Flow}
use xp_wellys_devfr_atc.InitialCall.{Result, evaluate, build_request_prompt}
use xp_wellys_devfr_atc.Flows.Corrections.{revert_target, correct}

abbrev pub say : String → AtcState → Response
say text next = record { text = text; next_state = next; requires_readback = false }

abbrev pub is_none : List String → Bool
is_none [] = true
is_none (x ∷ xs) = false

module _ {F : Type 0} ⦃d : Double F⦄ where
  unfoldable pub handle_negative_correction :
      Env F → PilotMessage → XplaneContext F → Flow F (Unit {0})
  unfolding correct
  handle_negative_correction env msg ctx m =
      if not (intent_eq msg.intent negative_correction) then (m, proceed tt) else (
        correct m,
        reply (
            say
              (fill
                (if not (state_eq (revert_target m.state) m.state)
                  then "{callsign}, roger, correction noted, say intentions."
                  else "{callsign}, roger, say intentions.")
                (build_vars env m msg ctx))
              (correct m).state),
      )

  unfoldable pub handle_info_flow : Env F → PilotMessage → XplaneContext F → Flow F (Unit {0})
  handle_info_flow env msg ctx m =
      let tmpl =
        Templates.lookup env.templates false "INFO" (intent_template_key msg.intent) false in
      let next = state_from_name tmpl.next_state in
      if not (frequency_eq ctx.frequency_type FrequencyType.info) then (m, proceed tt) else (
        transition_to next "info_flow" m,
        reply (say (fill tmpl.response_template (build_vars env m msg ctx)) next),
      )

  unfoldable pub is_unicom_flow : XplaneContext F → Bool
  is_unicom_flow ctx =
      frequency_eq ctx.frequency_type FrequencyType.unicom
      || frequency_eq ctx.frequency_type FrequencyType.ctaf
      || frequency_eq ctx.frequency_type FrequencyType.radio
      || (not (is_towered ctx) && not (frequency_eq ctx.frequency_type FrequencyType.info))

  unfoldable pub handle_unicom_flow : Env F → PilotMessage → XplaneContext F → Flow F (Unit {0})
  unfolding is_unicom_flow
  handle_unicom_flow env msg ctx m =
      let state_key =
        if frequency_eq ctx.frequency_type FrequencyType.radio then "RADIO" else "IDLE" in
      let tmpl =
        Templates.lookup env.templates false state_key (intent_template_key msg.intent) false in
      if not (is_unicom_flow ctx) then (m, proceed tt) else (
        transition_to idle "unicom_flow_idle" m,
        reply (say (fill tmpl.response_template (build_vars env m msg ctx)) idle),
      )

  unfoldable pub hint_template : FrequencyHint → XplaneContext F → String → String
  hint_template fh ctx intent_key =
      if mentions intent_key fh.ground_intents && not ctx.tower_only
      then fh.ground_response
      else fh.tower_response

  unfoldable pub handle_frequency_hint : Env F → PilotMessage → XplaneContext F → Flow F (Unit {0})
  unfolding hint_template
  handle_frequency_hint env msg ctx m =
      if not (frequency_eq ctx.frequency_type FrequencyType.unknown) || not (is_towered ctx)
      then (m, proceed tt)
      else if intent_eq msg.intent readback
      then (m, proceed tt)
      else elim env.rules.frequency_hint [
        | none ↦ (m, proceed tt)
        | some fh ↦
            let tmpl = hint_template fh ctx (intent_template_key msg.intent) in
            if is_empty tmpl
            then (m, proceed tt)
            else (m, reply (say (fill tmpl (build_vars env m msg ctx)) m.state))
      ]

  unfoldable pub redirects : XplaneContext F → String → IdleRedirect → Bool
  redirects ctx intent_key r =
      frequency_eq r.freq_type ctx.frequency_type
      && not (text_eq r.unless_flag "tower_only" && ctx.tower_only)
      && mentions intent_key r.intent_in

  unfoldable pub handle_idle_redirects : Env F → PilotMessage → XplaneContext F → Flow F (Unit {0})
  unfolding redirects
  handle_idle_redirects env msg ctx m =
      if not (state_eq m.state idle)
      then (m, proceed tt)
      else elim (find (redirects ctx (intent_template_key msg.intent)) env.rules.idle_redirects) [
        | none ↦ (m, proceed tt)
        | some r ↦ (
          transition_to idle "idle_redirect" m,
          reply (say (fill r.response (build_vars env m msg ctx)) idle),
        )
      ]

  -- A rejection that is not empty is spoken, and the state is held.
  unfoldable pub reject_with : String → Env F → PilotMessage → XplaneContext F → Flow F (Unit {0})
  reject_with rejection env msg ctx m =
      if is_empty rejection
      then (m, proceed tt)
      else (m, reply (say (fill rejection (build_vars env m msg ctx)) m.state))

  unfoldable pub check_phase_precondition :
      Env F → FlightPhase → PilotMessage → XplaneContext F → Flow F (Unit {0})
  unfolding reject_with
  check_phase_precondition env phase msg ctx =
      reject_with (check_precondition env.rules (intent_template_key msg.intent) phase) env msg ctx

  unfoldable pub check_freq_precondition :
      Env F → PilotMessage → XplaneContext F → Flow F (Unit {0})
  unfolding reject_with
  check_freq_precondition env msg ctx m =
      if ctx.tower_only && frequency_eq ctx.frequency_type FrequencyType.tower
      then (m, proceed tt)
      else reject_with
          (check_frequency_precondition env.rules (intent_template_key msg.intent)
            ctx.frequency_type)
          env msg ctx m

  -- The elements that the mode enforces.
  unfoldable pub enforced : Env F → PilotMessage → XplaneContext F → List String
  enforced env msg ctx =
      let r =
        evaluate parse_spoken_number env.conformance "INITIAL_CALL_GROUND" msg ctx.aircraft_icao in
      if env.settings.bzf_strict_mode
      then r.missing_required ++ r.missing_recommended
      else r.missing_required

  unfoldable pub apply_initial_call_conformance :
      Env F → PilotMessage → XplaneContext F → Flow F (Unit {0})
  unfolding enforced
  apply_initial_call_conformance env msg ctx m =
      if not (intent_eq msg.intent initial_call_ground)
      then (m, proceed tt)
      else if not (text_eq env.settings.atc_profile "DE")
      then (m, proceed tt)
      else if is_none (enforced env msg ctx)
      then (m, proceed tt)
      else (
        m,
        reply (
            say
              (build_request_prompt env.conformance "INITIAL_CALL_GROUND"
                (or_empty (lookup "callsign" (build_vars env m msg ctx))) (enforced env msg ctx))
              m.state),
      )
