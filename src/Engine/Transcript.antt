-- ===== src/Engine/Transcript.antt =====
-- `process_transcript` and the callback of the language model (src/atc/engine.cpp). The parser of
-- intents is an argument, of which IntentParser.parse is one, and so is the verdict of the language
-- model; the prompt is left out.
pub mod Faithful
pub mod Routes
pub mod Streak
use xp_wellys_devfr_atc.Base.{
  ℕ, suc, Bool, true, false, not, ◌&&◌, ◌||◌, String, Option, none, some, List, [], ◌∷◌, ◌++◌, any,
  text_eq, is_empty, if◌then◌else◌,
}
use xp_wellys_devfr_atc.Phraseology.Spoken.{parse_spoken_number}
use xp_wellys_devfr_atc.Base.Runs.{codes, to_lower, contains}
use xp_wellys_devfr_atc.Double.{Double, ◌<?◌, ◌≤?◌, lit, whole}
use xp_wellys_devfr_atc.State.{AtcState, state_name}
use xp_wellys_devfr_atc.Intent.{PilotMessage, PilotIntent, intent_eq, intent_from_key}
use xp_wellys_devfr_atc.Radio.{FrequencyType, frequency_eq}
use xp_wellys_devfr_atc.Context.{XplaneContext, is_towered}
use xp_wellys_devfr_atc.Templates.{Templates, valid_intents}
use xp_wellys_devfr_atc.Readback.{ClearanceComponents, readback_covers_core}
use xp_wellys_devfr_atc.Readback.Match.{missing_readback_elements}
use xp_wellys_devfr_atc.Machine.{
  Machine, set_flight_intent_cross_country, set_flight_intent_pattern,
}
use xp_wellys_devfr_atc.World.{World, on_machine}
use xp_wellys_devfr_atc.Env.{Env}
use xp_wellys_devfr_atc.Response.{Response}
use xp_wellys_devfr_atc.Process.{process}
use xp_wellys_devfr_atc.Queries.{just_landed}
use xp_wellys_devfr_atc.Dialog.{Dialog}
use xp_wellys_devfr_atc.Dialog.Pilot.{Reply, handle_pilot, is_awaiting, is_traffic_intent}
use xp_wellys_devfr_atc.Advisor.{mark_acknowledged_visual}
use xp_wellys_devfr_atc.Engine.{Counters, Plugin, Parsed, Output, mark_clear}
use xp_wellys_devfr_atc.Engine.Repair.{repair_invents_digits, repair_violates_history}
use xp_wellys_devfr_atc.Engine.Unclear.{addressee, unclear_text, build_profanity_response}

-- `Input`, with a context.
pub record Input (F : Type 0) : Type 0 where
  pub transcript : String
  pub quality : F
  pub ctx : XplaneContext F
  pub pilot_callsign : String
  pub now_secs : F

-- `backends::lm::ClassifyResult`.
pub record ClassifyResult : Type 0 where
  pub success : Bool
  pub intent_name : String
  pub repaired_transcript : String
  pub whisper_fix : Bool

-- What the callback captures, and the intents that the language model may choose from.
pub record Pending (F : Type 0) : Type 0 where
  pub parsed : Parsed F
  pub ctx_snapshot : XplaneContext F
  pub now_secs : F
  pub fallback_cs : String
  pub original_transcript : String
  pub just_landed_snapshot : Bool
  pub readback_pending_snapshot : Bool
  pub valid : List String

-- `done(out)`, or a request to the language model.
pub data Reaction (F : Type 0) : Type 0 where
  answered : Output F → Reaction F
  deferred : Pending F → Reaction F

abbrev pub traffic_keys : List String
traffic_keys = "TRAFFIC_IN_SIGHT" ∷ "TRAFFIC_NEGATIVE_CONTACT" ∷ "TRAFFIC_LOOKING" ∷ []

-- The loop that adds the traffic intents which are not there.
unfoldable pub add_missing : List String → List String → List String
add_missing [] valid = valid
add_missing (t ∷ ts) valid =
    add_missing ts (if any (text_eq t) valid then valid else valid ++ (t ∷ []))

-- `PilotMessage stub` with the transcript.
abbrev pub stub : String → PilotMessage
stub transcript = record {
  raw_transcript = transcript;
  intent = PilotIntent.unknown;
  callsign = "";
  runway = "";
  vrp_name = "";
  destination = "";
  has_position = false;
}

module _ {F : Type 0} where
  abbrev pub set_intent : PilotIntent → F → Parsed F → Parsed F
  set_intent intent confidence parsed = record {
    message = record parsed.message { intent = intent };
    confidence = confidence;
  }

  -- Is the frequency one of the tower's?
  unfoldable pub on_towered_frequency : XplaneContext F → Bool
  on_towered_frequency ctx =
      is_towered ctx
      && not (frequency_eq ctx.frequency_type FrequencyType.unicom)
      && not (frequency_eq ctx.frequency_type FrequencyType.ctaf)
      && not (frequency_eq ctx.frequency_type FrequencyType.info)
      && not (frequency_eq ctx.frequency_type FrequencyType.radio)

  -- The declared destination, or "Platzrunde".
  unfoldable pub latch_flight_intent : String → PilotMessage → World F → World F
  latch_flight_intent transcript msg w =
      if not (is_empty msg.destination)
      then on_machine (set_flight_intent_cross_country msg.destination) w
      else if contains (codes "platzrunde") (to_lower (codes transcript))
      then on_machine set_flight_intent_pattern w
      else w

module _ {F : Type 0} ⦃d : Double F⦄ where
  unfoldable pub build_unclear_response :
      Templates → PilotMessage → String → Plugin F → Plugin F × String
  unfolding unclear_text
  build_unclear_response t msg fallback_cs p =
      let streak = suc p.counters.unclear_streak in
      (
        record p { counters = record p.counters { unclear_streak = streak } },
        unclear_text t p.world.machine.session_callsign msg fallback_cs streak,
      )

  -- `out.parsed = parsed` with the unclear answer.
  unfoldable pub answer_unclear :
      Env F → Parsed F → PilotMessage → String → Plugin F → Plugin F × Output F
  unfolding build_unclear_response
  answer_unclear env parsed msg fallback_cs p =
      let (p', text) = build_unclear_response env.templates msg fallback_cs p in
      (p', record { response_text = text; parsed = parsed; is_warning = false })

  -- `none` is `false`.
  unfoldable pub try_traffic_dialog :
      Env F → Parsed F → XplaneContext F → F → Plugin F → Option (Plugin F × Output F)
  unfolding mark_clear
  try_traffic_dialog env parsed ctx now_secs p =
      if not (is_awaiting p.world.dialog.state)
      then none
      else let target = p.world.dialog.pending_target_id in
        let (dialog, reply) = handle_pilot env parsed.message ctx p.world.machine p.world.dialog in
        if not reply.handled
        then none
        else some (
          record p {
            world = record p.world { dialog = dialog };
            counters = mark_clear (record p.counters {
              advisory_history =
                  if reply.acknowledged_with_visual
                  then mark_acknowledged_visual target now_secs p.counters.advisory_history
                  else p.counters.advisory_history;
            });
          },
          record { response_text = reply.text; parsed = parsed; is_warning = false },
        )

  unfoldable pub run_state_machine :
      Env F → Parsed F → XplaneContext F → F → Plugin F → Plugin F × Output F
  unfolding mark_clear
  run_state_machine env parsed ctx now_secs p =
      let (w, resp) = process env parsed.message ctx now_secs p.world in
      (
        record p {
          world = w;
          counters =
              if not (intent_eq parsed.message.intent PilotIntent.unknown)
              then mark_clear p.counters
              else p.counters;
        },
        record { response_text = resp.text; parsed = parsed; is_warning = false },
      )

  unfoldable pub answer_profanity : Parsed F → String → Plugin F → Plugin F × Output F
  unfolding mark_clear
  answer_profanity parsed pilot_callsign p =
      let warnings = suc p.counters.profanity_warnings in
      (
        record p { counters = mark_clear (record p.counters { profanity_warnings = warnings }) },
        record {
          response_text =
              build_profanity_response warnings
                (addressee p.world.machine.session_callsign parsed.message pilot_callsign);
          parsed = parsed;
          is_warning = true;
        },
      )

  -- The gate of the traffic dialog in `process_transcript`.
  unfoldable pub is_traffic_reply : Parsed F → World F → Bool
  is_traffic_reply parsed w =
      is_awaiting w.dialog.state && is_traffic_intent parsed.message && lit 7 1 ≤? parsed.confidence

  -- The deterministic match against the stored clearance.
  unfoldable pub reads_back : Env F → String → Machine F → Bool
  reads_back env transcript m =
      m.readback_pending
      && readback_covers_core m.last_clearance_components.required (
          missing_readback_elements parse_spoken_number m.last_clearance_components
            (codes transcript))

  unfoldable pub offered_intents : Env F → XplaneContext F → Machine F → List String
  unfolding add_missing on_towered_frequency
  offered_intents env ctx m = add_missing traffic_keys (
      valid_intents env.templates (on_towered_frequency ctx) (state_name m.departure_type m.state)
        m.was_airborne)

  unfoldable pub defer : Env F → Input F → Parsed F → Plugin F → Plugin F × Reaction F
  unfolding offered_intents
  defer env input parsed p = (
    record p { counters = record p.counters { lm_inferences = suc p.counters.lm_inferences } },
    deferred (record {
      parsed = parsed;
      ctx_snapshot = input.ctx;
      now_secs = input.now_secs;
      fallback_cs = input.pilot_callsign;
      original_transcript = input.transcript;
      just_landed_snapshot = just_landed input.now_secs (whole 120) p.world.machine;
      readback_pending_snapshot = p.world.machine.readback_pending;
      valid = offered_intents env input.ctx p.world.machine;
    }),
  )

  abbrev pub answer : Plugin F × Output F → Plugin F × Reaction F
  answer (p, out) = (p, answered out)

  -- From the radio discipline on.
  unfoldable pub route : Env F → Bool → Input F → Parsed F → Plugin F → Plugin F × Reaction F
  route env lm_ready input parsed p =
      if intent_eq parsed.message.intent PilotIntent.inappropriate_language
      then answer (answer_profanity parsed input.pilot_callsign p)
      else if reads_back env input.transcript p.world.machine
      then answer (
          run_state_machine env (set_intent PilotIntent.readback (lit 9 1) parsed) input.ctx
            input.now_secs p)
      else if not lm_ready
      then (if intent_eq parsed.message.intent PilotIntent.unknown
          then answer (answer_unclear env parsed parsed.message input.pilot_callsign p)
          else answer (run_state_machine env parsed input.ctx input.now_secs p))
      else if lit 7 1 ≤? parsed.confidence
          && not (intent_eq parsed.message.intent PilotIntent.unknown)
      then answer (run_state_machine env parsed input.ctx input.now_secs p)
      else defer env input parsed p

  unfoldable pub process_transcript :
      Env F
      → (World F → String → XplaneContext F → Parsed F)
      → Bool
      → Input F
      → Plugin F
      → Plugin F × Reaction F
  process_transcript env parse lm_ready input p =
      if input.quality <? lit 3 1
      then answer (
          answer_unclear env (record { message = stub ""; confidence = whole 0 })
            (stub input.transcript) input.pilot_callsign p)
      else let parsed = parse p.world input.transcript input.ctx in
        let latched = record p {
          world = latch_flight_intent input.transcript parsed.message p.world;
        } in
        let routed = route env lm_ready input parsed latched in
        if is_traffic_reply parsed latched.world
        then elim (try_traffic_dialog env parsed input.ctx input.now_secs latched) [
          | some replied ↦ answer replied
          | none ↦ routed
        ]
        else routed

  -- The key that the callback goes on with: the model's, `_INVALID`, or the parser's readback.
  unfoldable pub settled_key : Parsed F → ClassifyResult → String
  settled_key parsed result =
      let key = if result.success then result.intent_name else "_INVALID" in
      if intent_eq parsed.message.intent PilotIntent.readback
        && lit 90 2 ≤? parsed.confidence
        && not (intent_eq (intent_from_key key) PilotIntent.readback)
      then "READBACK"
      else key

  unfoldable pub repair_accepted : Pending F → ClassifyResult → Bool
  unfolding repair_invents_digits repair_violates_history
  repair_accepted q result =
      if not (result.whisper_fix && not (is_empty result.repaired_transcript))
      then false
      else if repair_invents_digits (codes q.original_transcript) (codes result.repaired_transcript)
      then false
      else if repair_violates_history result.repaired_transcript q.just_landed_snapshot
      then false
      else true

  -- The parser's message with the model's intent and, if it is accepted, the repaired text.
  unfoldable pub lm_message : Pending F → ClassifyResult → String → Parsed F
  unfolding repair_accepted
  lm_message q result key =
      let msg = set_intent (intent_from_key key) (lit 85 2) q.parsed in
      if repair_accepted q result
      then record msg {
        message = record msg.message { raw_transcript = result.repaired_transcript };
      }
      else msg

  -- The callback, at the state that it finds when it runs.
  unfoldable pub on_classified : Env F → Pending F → ClassifyResult → Plugin F → Plugin F × Output F
  on_classified env q result p =
      let key = settled_key q.parsed result in
      if text_eq key "_INVALID"
      then (if q.readback_pending_snapshot
          then run_state_machine env (set_intent PilotIntent.readback (lit 7 1) q.parsed)
              q.ctx_snapshot q.now_secs p
          else answer_unclear env q.parsed q.parsed.message q.fallback_cs p)
      else let msg = lm_message q result key in
        elim (try_traffic_dialog env msg q.ctx_snapshot q.now_secs p) [
          | some replied ↦ replied
          | none ↦ run_state_machine env msg q.ctx_snapshot q.now_secs p
        ]
