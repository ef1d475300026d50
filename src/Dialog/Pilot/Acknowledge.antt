-- ===== src/Dialog/Pilot/Acknowledge.antt =====
-- An advisory is acknowledged once.
use xp_wellys_devfr_atc.Base.{◌≡◌, inl, inr, refl, true, Bool-cases, ℕ}
use xp_wellys_devfr_atc.Double.{Double}
use xp_wellys_devfr_atc.Intent.{PilotMessage, traffic_in_sight, intent_eq}
use xp_wellys_devfr_atc.Context.{XplaneContext}
use xp_wellys_devfr_atc.Machine.{Machine}
use xp_wellys_devfr_atc.Env.{Env}
use xp_wellys_devfr_atc.Dialog.{Dialog, on_advisory_emitted, init}
use xp_wellys_devfr_atc.Dialog.Pilot.{no_reply, is_traffic_intent, traffic_reply, handle_pilot}

module _ {F : Type 0} ⦃d : Double F⦄ where
  -- After an advisory the first answer about the traffic is handled, whatever was pending before, and
  -- counts as visual contact exactly if the pilot has the traffic in sight. Then the dialog is idle,
  -- and no further message is handled until the next advisory.
  pub handle_pilot-once :
      (env : Env F) (msg again : PilotMessage) (ctx ctx2 : XplaneContext F) (m m2 : Machine F)
      (target : ℕ) (dialog : Dialog)
      → is_traffic_intent msg ≡ true
      → let r = handle_pilot env msg ctx m (on_advisory_emitted target dialog) in
        (r.1.handled ≡ true)
        × (r.1.acknowledged_with_visual ≡ intent_eq msg.intent traffic_in_sight)
        × (r.0 ≡ init)
        × (handle_pilot env again ctx2 m2 r.0 ≡ (init, no_reply))
  unfolding handle_pilot on_advisory_emitted init traffic_reply
  handle_pilot-once env msg again ctx ctx2 m m2 target dialog h =
      elim (Bool-cases (intent_eq msg.intent traffic_in_sight)) [
        | inl e ↦ rw (h, e, handle_pilot, traffic_reply) (refl, refl, refl, refl)
        | inr e ↦ rw (h, e, handle_pilot, traffic_reply) (refl, refl, refl, refl)
      ]
