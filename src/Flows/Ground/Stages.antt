-- ===== src/Flows/Ground/Stages.antt =====
-- The counter through the guards that reply.
use xp_wellys_devfr_atc.Base.{inl, inr, false, ◌&&◌, String, Bool-cases, is_empty, arith}
use xp_wellys_devfr_atc.Double.{Double}
use xp_wellys_devfr_atc.State.{state_from_name, idle}
use xp_wellys_devfr_atc.Templates
use xp_wellys_devfr_atc.Intent.{PilotMessage, intent_template_key, intent_eq, negative_correction}
use xp_wellys_devfr_atc.Radio.{FrequencyType, frequency_eq}
use xp_wellys_devfr_atc.Context.{XplaneContext}
use xp_wellys_devfr_atc.FlightPhase.{FlightPhase}
use xp_wellys_devfr_atc.Machine.Discipline.{Discipline, skip, same, move_once}
use xp_wellys_devfr_atc.Env.{Env}
use xp_wellys_devfr_atc.Response.Rules.{FlowFollows}
use xp_wellys_devfr_atc.Flows.Corrections.Stages.{follows-correct}
use xp_wellys_devfr_atc.Flows.Ground.{
  handle_negative_correction, handle_info_flow, handle_unicom_flow, handle_frequency_hint,
  handle_idle_redirects, reject_with, check_phase_precondition, check_freq_precondition,
  apply_initial_call_conformance,
}

module _ {F : Type 0} ⦃d : Double F⦄ (D : Discipline F) where
  pub follows-handle_negative_correction :
      (env : Env F) (msg : PilotMessage) (ctx : XplaneContext F)
      → FlowFollows D 2 (handle_negative_correction env msg ctx)
  unfolding handle_negative_correction
  follows-handle_negative_correction env msg ctx = record {
    at = λ m. elim (Bool-cases (intent_eq msg.intent negative_correction)) [
      | inl e ↦ rw e (follows-correct D m)
      | inr e ↦ rw e (skip D 2 m)
    ];
  }

  pub follows-handle_info_flow :
      (env : Env F) (msg : PilotMessage) (ctx : XplaneContext F)
      → FlowFollows D 1 (handle_info_flow env msg ctx)
  unfolding handle_info_flow
  follows-handle_info_flow env msg ctx = record {
    at = λ m.
        move_once D
          (state_from_name
            (Templates.lookup env.templates false "INFO" (intent_template_key msg.intent)
              false).next_state)
          "info_flow" m _ (ground arith);
  }

  pub follows-handle_unicom_flow :
      (env : Env F) (msg : PilotMessage) (ctx : XplaneContext F)
      → FlowFollows D 1 (handle_unicom_flow env msg ctx)
  unfolding handle_unicom_flow
  follows-handle_unicom_flow env msg ctx = record {
    at = λ m. move_once D idle "unicom_flow_idle" m _ (ground arith);
  }

  pub follows-handle_frequency_hint :
      (env : Env F) (msg : PilotMessage) (ctx : XplaneContext F)
      → FlowFollows D 0 (handle_frequency_hint env msg ctx)
  unfolding handle_frequency_hint
  follows-handle_frequency_hint env msg ctx = record { at = λ m. same D m _ (ground arith) }

  pub follows-handle_idle_redirects :
      (env : Env F) (msg : PilotMessage) (ctx : XplaneContext F)
      → FlowFollows D 1 (handle_idle_redirects env msg ctx)
  unfolding handle_idle_redirects
  follows-handle_idle_redirects env msg ctx = record {
    at = λ m. move_once D idle "idle_redirect" m _ (ground arith);
  }

  follows-reject_with :
      (rejection : String) (env : Env F) (msg : PilotMessage) (ctx : XplaneContext F)
      → FlowFollows D 0 (reject_with rejection env msg ctx)
  unfolding reject_with
  follows-reject_with rejection env msg ctx = record {
    at = λ m. elim (Bool-cases (is_empty rejection)) [
      | inl e ↦ rw e (skip D 0 m)
      | inr e ↦ rw e (skip D 0 m)
    ];
  }

  pub follows-check_phase_precondition :
      (env : Env F) (phase : FlightPhase) (msg : PilotMessage) (ctx : XplaneContext F)
      → FlowFollows D 0 (check_phase_precondition env phase msg ctx)
  unfolding check_phase_precondition
  follows-check_phase_precondition env phase msg ctx = record {
    at = λ m. (follows-reject_with _ env msg ctx).at m;
  }

  pub follows-check_freq_precondition :
      (env : Env F) (msg : PilotMessage) (ctx : XplaneContext F)
      → FlowFollows D 0 (check_freq_precondition env msg ctx)
  unfolding check_freq_precondition
  follows-check_freq_precondition env msg ctx = record {
    at = λ m.
        elim (Bool-cases (ctx.tower_only && frequency_eq ctx.frequency_type FrequencyType.tower)) [
          | inl e ↦ rw e (skip D 0 m)
          | inr e ↦ rw e ((follows-reject_with _ env msg ctx).at m)
        ];
  }

  pub follows-apply_initial_call_conformance :
      (env : Env F) (msg : PilotMessage) (ctx : XplaneContext F)
      → FlowFollows D 0 (apply_initial_call_conformance env msg ctx)
  unfolding apply_initial_call_conformance
  follows-apply_initial_call_conformance env msg ctx = record {
    at = λ m. same D m _ (ground arith);
  }
