-- ===== src/Engine/Session/Clocks.antt =====
-- Transcripts leave the clocks of the controller's own calls alone.
use xp_wellys_devfr_atc.Base.{◌≡◌, refl, Bool, String, some, inl, inr, Bool-cases, arith}
use xp_wellys_devfr_atc.Double.{Double}
use xp_wellys_devfr_atc.Intent.{PilotIntent, intent_eq}
use xp_wellys_devfr_atc.Context.{XplaneContext}
use xp_wellys_devfr_atc.World.{World}
use xp_wellys_devfr_atc.Env.{Env}
use xp_wellys_devfr_atc.Dialog.Pilot.{is_awaiting, handle_pilot}
use xp_wellys_devfr_atc.Advisor.{mark_acknowledged_visual}
use xp_wellys_devfr_atc.Engine.{Counters, Plugin, Parsed, Output, mark_clear}
use xp_wellys_devfr_atc.Engine.Transcript.{
  Input, Reaction, Pending, ClassifyResult, answer_unclear, answer_profanity, run_state_machine,
  try_traffic_dialog, defer, process_transcript, on_classified,
}
use xp_wellys_devfr_atc.Engine.Transcript.Routes.{
  route-cases, process_transcript-cases, on_classified-cases,
}

module _ {F : Type 0} where
  abbrev pub SameClocks : Counters F → Counters F → Type 0
  SameClocks c c' =
      (c'.advisory_history.last_issued_secs ≡ c.advisory_history.last_issued_secs)
      × (c'.advisory_history.last_global_emit_secs ≡ c.advisory_history.last_global_emit_secs)
      × (c'.last_go_around_emit_secs ≡ c.last_go_around_emit_secs)

module _ {F : Type 0} ⦃d : Double F⦄ where
  run_state_machine-SameClocks :
      (env : Env F) (heard : Parsed F) (ctx : XplaneContext F) (now_secs : F) (p : Plugin F)
      → SameClocks p.counters (run_state_machine env heard ctx now_secs p).0.counters
  unfolding run_state_machine mark_clear
  run_state_machine-SameClocks env heard ctx now_secs p =
      elim (Bool-cases (intent_eq heard.message.intent PilotIntent.unknown)) [
        | inl e ↦ rw e (refl, refl, refl)
        | inr e ↦ rw e (refl, refl, refl)
      ]

  try_traffic_dialog-SameClocks :
      (env : Env F) (parsed : Parsed F) (ctx : XplaneContext F) (now_secs : F) (p : Plugin F)
      (replied : Plugin F × Output F)
      → try_traffic_dialog env parsed ctx now_secs p ≡ some replied
      → SameClocks p.counters replied.0.counters
  unfolding try_traffic_dialog mark_clear mark_acknowledged_visual
  try_traffic_dialog-SameClocks env parsed ctx now_secs p replied h =
      elim (Bool-cases (is_awaiting p.world.dialog.state)) [
        | inr e ↦ absurd (ground arith)
        | inl e ↦
            let reply = (handle_pilot env parsed.message ctx p.world.machine p.world.dialog).1 in
            elim (Bool-cases reply.handled) [
              | inr f ↦ absurd (ground arith)
              | inl f ↦ elim (Bool-cases reply.acknowledged_with_visual) [
                | inl g ↦ (ground arith, ground arith, ground arith)
                | inr g ↦ (ground arith, ground arith, ground arith)
              ]
            ]
      ]

  pub process_transcript-SameClocks :
      (env : Env F) (parse : World F → String → XplaneContext F → Parsed F) (lm_ready : Bool)
      (input : Input F) (p : Plugin F)
      → SameClocks p.counters (process_transcript env parse lm_ready input p).0.counters
  unfolding answer_unclear answer_profanity mark_clear defer
  process_transcript-SameClocks env parse lm_ready input p =
      let Same = λ (r : Plugin F × Reaction F). SameClocks p.counters r.0.counters in
      process_transcript-cases Same env parse lm_ready input p (λ parsed msg. (refl, refl, refl))
        (λ parsed w.
          try_traffic_dialog-SameClocks env parsed input.ctx input.now_secs
            (record p { world = w }))
        (λ parsed w.
          route-cases Same env lm_ready input parsed (record p { world = w }) (refl, refl, refl)
            (λ heard _.
              run_state_machine-SameClocks env heard input.ctx input.now_secs
                (record p { world = w }))
            (refl, refl, refl) (refl, refl, refl))

  pub on_classified-SameClocks :
      (env : Env F) (q : Pending F) (result : ClassifyResult) (p : Plugin F)
      → SameClocks p.counters (on_classified env q result p).0.counters
  unfolding answer_unclear
  on_classified-SameClocks env q result p =
      on_classified-cases (λ r. SameClocks p.counters r.0.counters) env q result p
        (λ heard. run_state_machine-SameClocks env heard q.ctx_snapshot q.now_secs p)
        (refl, refl, refl)
        (λ parsed. try_traffic_dialog-SameClocks env parsed q.ctx_snapshot q.now_secs p)
