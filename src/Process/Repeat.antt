-- ===== src/Process/Repeat.antt =====
-- "Say again": the last response, without a step of the dialog.
use xp_wellys_devfr_atc.Base.{◌≡◌, refl, ap, ◌∙◌, false, String, is_empty, arith}
use xp_wellys_devfr_atc.Double.{Double}
use xp_wellys_devfr_atc.State.{AtcState}
use xp_wellys_devfr_atc.Intent.{PilotMessage, request_repeat}
use xp_wellys_devfr_atc.Context.{XplaneContext}
use xp_wellys_devfr_atc.Readback.{ClearanceComponents}
use xp_wellys_devfr_atc.Machine.{
  Machine, transition_to, set_last_now_secs, set_readback_pending, clear_assigned_runway,
  set_departure_type,
}
use xp_wellys_devfr_atc.World.{World}
use xp_wellys_devfr_atc.Env.{Env}
use xp_wellys_devfr_atc.Response.{Response}
use xp_wellys_devfr_atc.Flows.CrossCountry.{leave_airport, check_airport_change}
use xp_wellys_devfr_atc.Flows.Ground.{handle_negative_correction}
use xp_wellys_devfr_atc.Hooks.{remember_response, apply_post_transition_hooks}
use xp_wellys_devfr_atc.Process.{
  promote, repeat_text, handle_repeat, early_guards, pipeline, process,
}

module _ {F : Type 0} where
  response-transition_to :
      (next : AtcState) (reason : String) (m : Machine F)
      → (transition_to next reason m).last_tower_response_text ≡ m.last_tower_response_text
  unfolding transition_to
  response-transition_to next reason m = ground arith

  response-leave_airport :
      (m : Machine F) → (leave_airport m).last_tower_response_text ≡ m.last_tower_response_text
  unfolding leave_airport set_departure_type clear_assigned_runway set_readback_pending
  response-leave_airport m = response-transition_to _ _ m

  -- The airport check keeps the last response.
  response-check_airport_change :
      (ctx : XplaneContext F) (now_secs : F) (w : World F)
      → (check_airport_change ctx now_secs w).machine.last_tower_response_text
        ≡ w.machine.last_tower_response_text
  unfolding check_airport_change set_last_now_secs
  response-check_airport_change ctx now_secs w =
      ground (arith, response-leave_airport (set_last_now_secs now_secs w.machine))

  -- What is spoken is remembered.
  response-hooks :
      (env : Env F) (msg : PilotMessage) (ctx : XplaneContext F) (resp : Response)
      (components : ClearanceComponents) (m : Machine F)
      → is_empty resp.text ≡ false
      → (apply_post_transition_hooks env msg ctx resp components m).0.last_tower_response_text
        ≡ resp.text
  unfolding apply_post_transition_hooks remember_response
  response-hooks env msg ctx resp components m spoken = rw spoken refl

module _ {F : Type 0} ⦃d : Double F⦄ where
  repeated :
      (env : Env F) (msg : PilotMessage) (ctx : XplaneContext F) (now_secs : F) (w : World F)
      → msg.intent ≡ request_repeat
      → let checked =
          check_airport_change ctx now_secs
            (record w { machine = set_last_now_secs now_secs w.machine }) in
        process env msg ctx now_secs w ≡ (
          checked,
          record {
            text = repeat_text env msg checked.machine;
            next_state = checked.machine.state;
            requires_readback = checked.machine.readback_pending;
          },
        )
  unfolding process pipeline early_guards handle_repeat handle_negative_correction promote
  repeated env msg ctx now_secs w e =
      rw (e, process, promote, pipeline, early_guards, handle_negative_correction, handle_repeat)
        refl

  -- The controller repeats what he spoke: whatever response was spoken and settled, in the world that
  -- this leaves, a request to repeat gives the same words, however the aircraft has moved. It changes
  -- nothing but what the airport check of every transmission changes, which keeps the words for the next
  -- request; and the reply names the state that is held, and asks for a readback exactly if one is
  -- pending.
  pub process-repeat :
      (env env' : Env F) (msg msg' : PilotMessage) (ctx ctx' : XplaneContext F) (resp : Response)
      (components : ClearanceComponents) (m : Machine F) (now_secs : F) (w : World F)
      → is_empty resp.text ≡ false
      → w.machine ≡ (apply_post_transition_hooks env msg ctx resp components m).0
      → msg'.intent ≡ request_repeat
      → let r = process env' msg' ctx' now_secs w in
        let checked =
          check_airport_change ctx' now_secs
            (record w { machine = set_last_now_secs now_secs w.machine }) in
        (r.1.text ≡ resp.text)
        × (r.0 ≡ checked)
        × (r.0.machine.last_tower_response_text ≡ resp.text)
        × (r.1.next_state ≡ checked.machine.state)
        × (r.1.requires_readback ≡ checked.machine.readback_pending)
  unfolding repeat_text set_last_now_secs
  process-repeat env env' msg msg' ctx ctx' resp components m now_secs w spoken settled asks =
      let now = record w { machine = set_last_now_secs now_secs w.machine } in
      let kept : (check_airport_change ctx' now_secs now).machine.last_tower_response_text
          ≡ resp.text =
        response-check_airport_change ctx' now_secs now
        ∙ ap (λ x. x.last_tower_response_text) settled
        ∙ response-hooks env msg ctx resp components m spoken in
      rw (repeated env' msg' ctx' now_secs w asks)
        (rw (repeat_text, kept, spoken) refl, refl, kept, refl, refl)
