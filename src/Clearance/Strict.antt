-- ===== src/Clearance/Strict.antt =====
-- The strict check of a readback, as the conclusion of a transmission.
use xp_wellys_devfr_atc.Base.{
  ◌≡◌, ◌⊎◌, inl, inr, refl, Bool, true, false, not, any, Bool-cases, arith,
}
use xp_wellys_devfr_atc.Intent.{PilotMessage, intent_eq, readback}
use xp_wellys_devfr_atc.Context.{XplaneContext}
use xp_wellys_devfr_atc.Readback.{ClearanceComponents, is_covered}
use xp_wellys_devfr_atc.Machine.{Machine, set_readback_pending}
use xp_wellys_devfr_atc.Env.{Env}
use xp_wellys_devfr_atc.Response.{Response}
use xp_wellys_devfr_atc.Clearance.{strict_applies, readback_diff, apply_bzf_strict_check}
use xp_wellys_devfr_atc.Hooks.Session.{Disarmed, hooks-Disarmed}
use xp_wellys_devfr_atc.Process.{conclude, outcome_response}

module _ {F : Type 0} where
  -- Every element of the clearance was read back as issued.
  abbrev pub complete : Env F → PilotMessage → Machine F → Bool
  complete env msg m = not (any (λ f. not (is_covered f.status)) (readback_diff env msg m))

  -- The dialog is held at the clearance, and the reply asks for it again.
  abbrev pub Held : Machine F → Machine F → Response → Type 0
  Held m m' resp =
      (m'.state ≡ m.state)
      × (m'.readback_pending ≡ true)
      × (m'.last_clearance_text ≡ m.last_clearance_text)
      × (m'.last_clearance_components ≡ m.last_clearance_components)
      × (resp.next_state ≡ m.state)
      × (resp.requires_readback ≡ true)

  strict_applies-readback :
      (env : Env F) (msg : PilotMessage) (m : Machine F)
      → strict_applies env msg m ≡ true
      → intent_eq msg.intent readback ≡ true
  unfolding strict_applies
  strict_applies-readback env msg m h = ground arith

  -- In the strict mode an incomplete readback does not move the dialog: the state and the clearance
  -- stay, the readback stays owed, and the reply asks for it again in the state that is held. A
  -- complete readback disarms the clearance: nothing is owed any more.
  pub conclude-strict :
      (env : Env F) (msg : PilotMessage) (ctx : XplaneContext F) (resp : Response)
      (c : ClearanceComponents) (m : Machine F)
      → strict_applies env msg m ≡ true
      → let m' = (conclude env msg ctx resp c m).0 in
        let reply' = outcome_response (conclude env msg ctx resp c m).1 in
        (complete env msg m ≡ false × Held m m' reply') ⊎ (complete env msg m ≡ true × Disarmed m')
  unfolding conclude apply_bzf_strict_check set_readback_pending
  conclude-strict env msg ctx resp c m h = elim (Bool-cases (complete env msg m)) [
    | inl e ↦ inr (
      e,
      rw (h, e, conclude, apply_bzf_strict_check)
          (hooks-Disarmed env msg ctx resp c m (strict_applies-readback env msg m h)),
    )
    | inr e ↦
        inl (e, rw (h, e, conclude, apply_bzf_strict_check) (refl, refl, refl, refl, refl, refl))
  ]
