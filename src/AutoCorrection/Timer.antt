-- ===== src/AutoCorrection/Timer.antt =====
-- When the frame's correction moves the dialog.
use xp_wellys_devfr_atc.Base.{◌≡◌, true, false, String, [], ◌∷◌, text_eq, concat, if◌then◌else◌}
use xp_wellys_devfr_atc.Double.{Double, add, whole}
use xp_wellys_devfr_atc.State.{AtcState, state_eq, state_name, idle}
use xp_wellys_devfr_atc.FlightPhase.{FlightPhase, AutoCorrection}
use xp_wellys_devfr_atc.Machine.{Machine}
use xp_wellys_devfr_atc.Machine.Discipline.{semantics}
use xp_wellys_devfr_atc.World.Fresh.{IsReleased}
use xp_wellys_devfr_atc.Env.{Env}

module _ {F : Type 0} ⦃d : Double F⦄ where
  -- The key of a rule in the current state.
  abbrev pub key_of : Machine F → String → String
  key_of m cond_name = concat (state_name m.departure_type m.state ∷ ":" ∷ cond_name ∷ [])

  -- The time that the rule has matched, this frame included.
  abbrev pub matched_time : Machine F → String → F → F
  matched_time m cond_name dt =
      add
        (if text_eq (key_of m cond_name) m.active_correction_key
          then m.correction_timer
          else whole 0)
        dt

  -- What a correction leaves.
  abbrev pub IsCorrected : AtcState → Machine F → Type 0
  IsCorrected next m =
      (m.state ≡ next)
      × (m.readback_pending ≡ false)
      × (m.active_correction_key ≡ "")
      × (m.correction_timer ≡ whole 0)
      × (state_eq next idle ≡ true → IsReleased m)

  -- The timer is where it is put, and nothing else but the heartbeat changes.
  abbrev pub IsTimed : String → F → Machine F → Machine F → Type 0
  IsTimed key time m m' =
      (semantics m' ≡ semantics m) × (m'.active_correction_key ≡ key) × (m'.correction_timer ≡ time)
