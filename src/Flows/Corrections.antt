-- ===== src/Flows/Corrections.antt =====
-- The stages of the pipeline that only change the machine (src/atc/flows/ground_operations.cpp):
-- the correction by the pilot, the reverts, the resets and the advances that the frequency causes,
-- and the collapse of the first call at a tower-only field. The log is left out.
pub mod Stages
use xp_wellys_devfr_atc.Base.{
  ℕ, Bool, true, false, not, ◌&&◌, ◌||◌, String, Option, none, some, List, [], ◌∷◌, ◌++◌, any, find,
  is_empty, text_eq, concat, or_empty, lookup, if◌then◌else◌,
}
use xp_wellys_devfr_atc.Double.{Double}
use xp_wellys_devfr_atc.State.{
  AtcState, idle, ground_contact, taxi_cleared, tower_contact, departure_cleared, pattern_entry,
  landing_cleared, touch_and_go_cleared, unicom_active, en_route, pattern, state_eq, state_name,
  state_from_name,
}
use xp_wellys_devfr_atc.Radio.{FrequencyType, frequency_eq}
use xp_wellys_devfr_atc.Intent.{
  PilotMessage, intent_eq, intent_template_key, negative_correction, readback, initial_call_tower,
  initial_call_ground,
}
use xp_wellys_devfr_atc.Context.{XplaneContext, is_towered}
use xp_wellys_devfr_atc.FlightPhase.{
  FlightPhase, FlightRules, FrequencyHint, IdleRedirect, StateRevert, FrequencyAutoCorrection,
  check_precondition, check_frequency_precondition, get_frequency_auto_corrections,
  get_state_frequency_validity, mentions,
}
use xp_wellys_devfr_atc.Templates.{TemplateEntry, fill}
use xp_wellys_devfr_atc.Templates
use xp_wellys_devfr_atc.Machine.{Machine, transition_to, set_departure_type}
use xp_wellys_devfr_atc.Env.{Env}
use xp_wellys_devfr_atc.Vars.{Vars, build_vars}
use xp_wellys_devfr_atc.Response.{Response, Outcome, reply, proceed, Flow}
use xp_wellys_devfr_atc.InitialCall.{Result, evaluate, build_request_prompt}

unfoldable pub revert_target : AtcState → AtcState
revert_target departure_cleared = tower_contact
revert_target taxi_cleared = ground_contact
revert_target landing_cleared = pattern_entry
revert_target touch_and_go_cleared = pattern_entry
revert_target pattern_entry = tower_contact
revert_target ground_contact = idle
revert_target tower_contact = idle
revert_target s = s

abbrev pub reverts : String → String → StateRevert → Bool
reverts current intent_key r = text_eq r.in_state current && mentions intent_key r.on_intent_in

abbrev pub on_frequency : FrequencyType → String × FrequencyAutoCorrection → Bool
on_frequency ft (_, rule) = any (frequency_eq ft) rule.frequencies

module _ {F : Type 0} where
  abbrev pub name_now : Machine F → String
  name_now m = state_name m.departure_type m.state

  -- The state change of a correction.
  unfoldable pub correct : Machine F → Machine F
  unfolding revert_target
  correct m =
      let target = revert_target m.state in
      if not (state_eq target m.state)
      then (let moved = transition_to target "negative_correction" m in
          if state_eq m.state departure_cleared then set_departure_type pattern moved else moved)
      else m

  unfoldable pub revert_by : StateRevert → Machine F → Machine F
  revert_by r m =
      let moved = transition_to (state_from_name r.revert_to) "state_revert" m in
      if r.reset_departure_type then set_departure_type pattern moved else moved

  unfoldable pub apply_state_reverts : Env F → PilotMessage → Machine F → Machine F
  unfolding revert_by
  apply_state_reverts env msg m =
      elim (find (reverts (name_now m) (intent_template_key msg.intent)) env.rules.state_reverts) [
        | none ↦ m
        | some r ↦ revert_by r m
      ]

  -- The message as the later guards see it.
  unfoldable pub tower_only_initial_collapse :
      Env F → XplaneContext F → PilotMessage → Machine F → PilotMessage
  tower_only_initial_collapse env ctx msg m =
      if not (text_eq env.settings.atc_profile "DE")
      then msg
      else if not ctx.tower_only || not ctx.on_ground
      then msg
      else if not (state_eq m.state idle)
      then msg
      else if m.was_airborne
      then msg
      else if not (intent_eq msg.intent initial_call_tower)
      then msg
      else record msg { intent = initial_call_ground }

  unfoldable pub apply_state_frequency_validity : Env F → XplaneContext F → Machine F → Machine F
  apply_state_frequency_validity env ctx m =
      if not (frequency_eq ctx.frequency_type FrequencyType.unknown)
        && not (ctx.tower_only && frequency_eq ctx.frequency_type FrequencyType.tower)
        && not (state_eq m.state en_route)
      then elim (get_state_frequency_validity env.rules ctx.frequency_type) [
        | none ↦ m
        | some allowed ↦
            if mentions (name_now m) allowed then m else transition_to idle "freq_validity_reset" m
      ]
      else m

  unfoldable pub advance_by : String × FrequencyAutoCorrection → Machine F → Machine F
  advance_by (cond_name, rule) m =
      let target = state_from_name rule.next_state in
      if not (state_eq target m.state)
      then transition_to target
          (concat
            ("freq_auto_correction:" ∷ (if is_empty rule.log then cond_name else rule.log) ∷ []))
          m
      else m

  unfoldable pub apply_frequency_auto_corrections : Env F → XplaneContext F → Machine F → Machine F
  unfolding advance_by
  apply_frequency_auto_corrections env ctx m =
      if ctx.tower_only && frequency_eq ctx.frequency_type FrequencyType.tower
      then m
      else elim (get_frequency_auto_corrections env.rules (name_now m)) [
        | none ↦ m
        | some rules ↦ elim (find (on_frequency ctx.frequency_type) rules) [
          | none ↦ m
          | some rule ↦ advance_by rule m
        ]
      ]
