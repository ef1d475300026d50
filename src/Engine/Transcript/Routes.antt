-- ===== src/Engine/Transcript/Routes.antt =====
-- The ways that a transcript can take, for any property of the outcome.
use xp_wellys_devfr_atc.Base.{
  ◌≡◌, inl, inr, refl, Bool, false, String, some, text_eq, Option-cases, Bool-cases,
}
use xp_wellys_devfr_atc.Double.{Double, ◌<?◌, ◌≤?◌, lit}
use xp_wellys_devfr_atc.Intent.{PilotMessage, PilotIntent, intent_eq}
use xp_wellys_devfr_atc.Context.{XplaneContext}
use xp_wellys_devfr_atc.World.{World}
use xp_wellys_devfr_atc.Env.{Env}
use xp_wellys_devfr_atc.Engine.{Plugin, Parsed, Output}
use xp_wellys_devfr_atc.Engine.Transcript.{
  Input, Reaction, Pending, ClassifyResult, set_intent, stub, answer, answer_unclear,
  answer_profanity, run_state_machine, try_traffic_dialog, reads_back, route, defer,
  latch_flight_intent, is_traffic_reply, process_transcript, settled_key, lm_message, on_classified,
}

module _ {F : Type 0} ⦃d : Double F⦄ where
  pub route-cases :
      (Q : Plugin F × Reaction F → Type 0) (env : Env F) (lm_ready : Bool) (input : Input F)
      (parsed : Parsed F) (p : Plugin F)
      → Q (answer (answer_profanity parsed input.pilot_callsign p))
      → ((heard : Parsed F)
          → intent_eq heard.message.intent PilotIntent.unknown ≡ false
          → Q (answer (run_state_machine env heard input.ctx input.now_secs p)))
      → Q (answer (answer_unclear env parsed parsed.message input.pilot_callsign p))
      → Q (defer env input parsed p)
      → Q (route env lm_ready input parsed p)
  unfolding route
  route-cases Q env lm_ready input parsed p profane heard unclear deferral =
      let intent = parsed.message.intent in
      elim (Bool-cases (intent_eq intent PilotIntent.inappropriate_language)) [
        | inl e ↦ rw (e, route) profane
        | inr e ↦ elim (Bool-cases (reads_back env input.transcript p.world.machine)) [
          | inl f ↦ rw (e, f, route) (heard (set_intent PilotIntent.readback (lit 9 1) parsed) refl)
          | inr f ↦ elim (Bool-cases (intent_eq intent PilotIntent.unknown)) [
            | inl g ↦ elim (Bool-cases lm_ready) [
              | inr l ↦ rw (e, f, g, l, route) unclear
              | inl l ↦ elim (Bool-cases (lit 7 1 ≤? parsed.confidence)) [
                | inl k ↦ rw (e, f, g, l, k, route) deferral
                | inr k ↦ rw (e, f, g, l, k, route) deferral
              ]
            ]
            | inr g ↦ elim (Bool-cases lm_ready) [
              | inr l ↦ rw (e, f, g, l, route) (heard parsed g)
              | inl l ↦ elim (Bool-cases (lit 7 1 ≤? parsed.confidence)) [
                | inl k ↦ rw (e, f, g, l, k, route) (heard parsed g)
                | inr k ↦ rw (e, f, g, l, k, route) deferral
              ]
            ]
          ]
        ]
      ]

  pub process_transcript-cases :
      (Q : Plugin F × Reaction F → Type 0) (env : Env F)
      (parse : World F → String → XplaneContext F → Parsed F) (lm_ready : Bool) (input : Input F)
      (p : Plugin F)
      → ((parsed : Parsed F) (msg : PilotMessage)
          → Q (answer (answer_unclear env parsed msg input.pilot_callsign p)))
      → ((parsed : Parsed F) (w : World F) (replied : Plugin F × Output F)
          → try_traffic_dialog env parsed input.ctx input.now_secs (record p { world = w })
            ≡ some replied
          → Q (answer replied))
      → ((parsed : Parsed F) (w : World F)
          → Q (route env lm_ready input parsed (record p { world = w })))
      → Q (process_transcript env parse lm_ready input p)
  unfolding process_transcript
  process_transcript-cases Q env parse lm_ready input p unclear replies routed =
      let parsed = parse p.world input.transcript input.ctx in
      let w = latch_flight_intent input.transcript parsed.message p.world in
      let latched = record p { world = w } in
      elim (Bool-cases (input.quality <? lit 3 1)) [
        | inl e ↦ rw (e, process_transcript) (unclear _ (stub input.transcript))
        | inr e ↦ elim (Bool-cases (is_traffic_reply parsed w)) [
          | inr f ↦ rw (e, f, process_transcript) (routed parsed w)
          | inl f ↦
              elim (Option-cases (try_traffic_dialog env parsed input.ctx input.now_secs latched)) [
                | inl g ↦ rw (e, f, g, process_transcript) (routed parsed w)
                | inr (replied, g) ↦ rw (e, f, g, process_transcript) (replies parsed w replied g)
              ]
        ]
      ]

  pub on_classified-cases :
      (Q : Plugin F × Output F → Type 0) (env : Env F) (q : Pending F) (result : ClassifyResult)
      (p : Plugin F)
      → ((heard : Parsed F) → Q (run_state_machine env heard q.ctx_snapshot q.now_secs p))
      → Q (answer_unclear env q.parsed q.parsed.message q.fallback_cs p)
      → ((parsed : Parsed F) (replied : Plugin F × Output F)
          → try_traffic_dialog env parsed q.ctx_snapshot q.now_secs p ≡ some replied
          → Q replied)
      → Q (on_classified env q result p)
  unfolding on_classified
  on_classified-cases Q env q result p heard unclear replies =
      let key = settled_key q.parsed result in
      let msg = lm_message q result key in
      elim (Bool-cases (text_eq key "_INVALID")) [
        | inl e ↦ elim (Bool-cases q.readback_pending_snapshot) [
          | inl f ↦ rw (e, f, on_classified) (heard _)
          | inr f ↦ rw (e, f, on_classified) unclear
        ]
        | inr e ↦ elim (Option-cases (try_traffic_dialog env msg q.ctx_snapshot q.now_secs p)) [
          | inl g ↦ rw (e, g, on_classified) (heard msg)
          | inr (replied, g) ↦ rw (e, g, on_classified) (replies msg replied g)
        ]
      ]
