-- ===== src/Machine/Transition.antt =====
-- What a change of state does and what it leaves alone.
use xp_wellys_devfr_atc.Base.{◌≡◌, refl, String, inl, inr, Bool-cases, arith}
use xp_wellys_devfr_atc.State.{AtcState, state_eq}
use xp_wellys_devfr_atc.Machine.{Machine, transition_to}

module _ {F : Type 0} where
  -- The fields that no change of state touches.
  abbrev pub Kept : Machine F → Machine F → Type 0
  Kept m m' =
      (m'.assigned_runway ≡ m.assigned_runway)
      × (m'.session_callsign ≡ m.session_callsign)
      × (m'.readback_pending ≡ m.readback_pending)
      × (m'.last_clearance_text ≡ m.last_clearance_text)
      × (m'.last_clearance_components ≡ m.last_clearance_components)
      × (m'.last_tower_response_text ≡ m.last_tower_response_text)
      × (m'.departure_type ≡ m.departure_type)
      × (m'.was_airborne ≡ m.was_airborne)

  pub Kept-transition_to :
      (next : AtcState) (reason : String) (m : Machine F) → Kept m (transition_to next reason m)
  unfolding transition_to
  Kept-transition_to next reason m = elim (Bool-cases (state_eq next m.state)) [
    | inl e ↦ rw e (refl, refl, refl, refl, refl, refl, refl, refl)
    | inr e ↦ rw e (refl, refl, refl, refl, refl, refl, refl, refl)
  ]

  pub state-transition_to :
      (next : AtcState) (reason : String) (m : Machine F)
      → (transition_to next reason m).state ≡ next
  unfolding transition_to
  state-transition_to next reason m = ground arith
