-- ===== src/Engine/Transcript/Streak.antt =====
-- What a transcript does to the count of those not understood.
use xp_wellys_devfr_atc.Base.{
  ℕ, suc, ◌≡◌, ◌⊎◌, inl, inr, refl, Bool, false, String, some, Bool-cases, arith,
}
use xp_wellys_devfr_atc.Double.{Double}
use xp_wellys_devfr_atc.Intent.{PilotMessage, PilotIntent, intent_eq}
use xp_wellys_devfr_atc.Context.{XplaneContext}
use xp_wellys_devfr_atc.World.{World}
use xp_wellys_devfr_atc.Env.{Env}
use xp_wellys_devfr_atc.Dialog.Pilot.{is_awaiting, handle_pilot}
use xp_wellys_devfr_atc.Engine.{Plugin, Parsed, Output, mark_clear}
use xp_wellys_devfr_atc.Engine.Unclear.{unclear_text}
use xp_wellys_devfr_atc.Engine.Transcript.{
  Input, Reaction, answered, deferred, Pending, answer, answer_unclear, answer_profanity,
  run_state_machine, try_traffic_dialog, route, defer, process_transcript,
}
use xp_wellys_devfr_atc.Engine.Transcript.Routes.{route-cases, process_transcript-cases}

module _ {F : Type 0} ⦃d : Double F⦄ where
  -- Answered as understood.
  abbrev pub Understood : ℕ → Plugin F × Reaction F → Type 0
  Understood inferences r =
      (out : Output F) × (r.1 ≡ answered out)
      × (r.0.counters.unclear_streak ≡ 0)
      × (r.0.counters.lm_inferences ≡ inferences)

  -- Answered with a request to say it again, of the tier that the raised count asks for.
  abbrev pub SaidAgain : Env F → ℕ → ℕ → Plugin F × Reaction F → Type 0
  SaidAgain env streak inferences r =
      (out : Output F) × (session_cs : String) × (msg : PilotMessage) × (fallback : String) × (r.1
        ≡ answered out)
      × (r.0.counters.unclear_streak ≡ suc streak)
      × (r.0.counters.lm_inferences ≡ inferences)
      × (out.response_text ≡ unclear_text env.templates session_cs msg fallback (suc streak))

  -- Left to the language model.
  abbrev pub Deferred : ℕ → ℕ → Plugin F × Reaction F → Type 0
  Deferred streak inferences r =
      (q : Pending F) × (r.1 ≡ deferred q)
      × (r.0.counters.unclear_streak ≡ streak)
      × (r.0.counters.lm_inferences ≡ suc inferences)

  abbrev pub Counts : Env F → ℕ → ℕ → Plugin F × Reaction F → Type 0
  Counts env streak inferences r =
      Understood inferences r ⊎ SaidAgain env streak inferences r ⊎ Deferred streak inferences r

  abbrev pub CountsFrom : Env F → Plugin F → Plugin F × Reaction F → Type 0
  CountsFrom env p = Counts env p.counters.unclear_streak p.counters.lm_inferences

  answer_unclear-Counts :
      (env : Env F) (parsed : Parsed F) (msg : PilotMessage) (fallback : String) (p : Plugin F)
      → CountsFrom env p (answer (answer_unclear env parsed msg fallback p))
  unfolding answer_unclear
  answer_unclear-Counts env parsed msg fallback p =
      inr (inl (_, p.world.machine.session_callsign, msg, fallback, refl, refl, refl, refl))

  run_state_machine-Counts :
      (env : Env F) (parsed : Parsed F) (ctx : XplaneContext F) (now_secs : F) (p : Plugin F)
      → intent_eq parsed.message.intent PilotIntent.unknown ≡ false
      → CountsFrom env p (answer (run_state_machine env parsed ctx now_secs p))
  unfolding run_state_machine
  run_state_machine-Counts env parsed ctx now_secs p h = inl (
    _,
    refl,
    rw (h, run_state_machine, mark_clear) refl,
    rw (h, run_state_machine, mark_clear) refl,
  )

  answer_profanity-Counts :
      (env : Env F) (parsed : Parsed F) (cs : String) (p : Plugin F)
      → CountsFrom env p (answer (answer_profanity parsed cs p))
  unfolding answer_profanity
  answer_profanity-Counts env parsed cs p = inl (_, refl, refl, refl)

  defer-Counts :
      (env : Env F) (input : Input F) (parsed : Parsed F) (p : Plugin F)
      → CountsFrom env p (defer env input parsed p)
  unfolding defer
  defer-Counts env input parsed p = inr (inr (_, refl, refl, refl))

  route-Counts :
      (env : Env F) (lm_ready : Bool) (input : Input F) (parsed : Parsed F) (p : Plugin F)
      → CountsFrom env p (route env lm_ready input parsed p)
  route-Counts env lm_ready input parsed p =
      route-cases (CountsFrom env p) env lm_ready input parsed p
        (answer_profanity-Counts env parsed input.pilot_callsign p)
        (λ heard. run_state_machine-Counts env heard input.ctx input.now_secs p)
        (answer_unclear-Counts env parsed parsed.message input.pilot_callsign p)
        (defer-Counts env input parsed p)

  try_traffic_dialog-Counts :
      (env : Env F) (parsed : Parsed F) (ctx : XplaneContext F) (now_secs : F) (p : Plugin F)
      (replied : Plugin F × Output F)
      → try_traffic_dialog env parsed ctx now_secs p ≡ some replied
      → CountsFrom env p (answer replied)
  unfolding try_traffic_dialog mark_clear
  try_traffic_dialog-Counts env parsed ctx now_secs p replied h =
      elim (Bool-cases (is_awaiting p.world.dialog.state)) [
        | inr e ↦ absurd (ground arith)
        | inl e ↦
            elim (Bool-cases
              (handle_pilot env parsed.message ctx p.world.machine p.world.dialog).1.handled) [
                | inr f ↦ absurd (ground arith)
                | inl f ↦ inl (replied.1, refl, ground arith, ground arith)
              ]
      ]

  -- Every transcript is settled in one of three ways. It is answered and the count of transcripts not
  -- understood starts anew; or it is answered with a request to say it again, worded for the raised
  -- count; or it is left to the language model, once, and the count waits.
  pub process_transcript-Counts :
      (env : Env F) (parse : World F → String → XplaneContext F → Parsed F) (lm_ready : Bool)
      (input : Input F) (p : Plugin F)
      → Counts env p.counters.unclear_streak p.counters.lm_inferences
          (process_transcript env parse lm_ready input p)
  process_transcript-Counts env parse lm_ready input p =
      process_transcript-cases (CountsFrom env p) env parse lm_ready input p
        (λ parsed msg. answer_unclear-Counts env parsed msg input.pilot_callsign p)
        (λ parsed w.
          try_traffic_dialog-Counts env parsed input.ctx input.now_secs (record p { world = w }))
        (λ parsed w. route-Counts env lm_ready input parsed (record p { world = w }))
