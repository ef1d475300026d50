-- ===== src/PhaseTracker/Guarded.antt =====
-- The hysteresis of the flight phase.
use xp_wellys_devfr_atc.Base.{◌≡◌, ◌⊎◌, inl, inr, refl, ◌&&◌, Bool-cases}
use xp_wellys_devfr_atc.Double.{Double, ◌<?◌}
use xp_wellys_devfr_atc.FlightPhase.{FlightPhase, HysteresisConfig, phase_eq}
use xp_wellys_devfr_atc.World.{PhaseState}
use xp_wellys_devfr_atc.PhaseTracker.{
  needs_hysteresis, hysteresis_duration, candidate_time, advance_phase,
}

module _ {F : Type 0} ⦃d : Double F⦄ where
  -- A frame that does not change the tracked phase leaves the airborne flag alone, and remembers the raw
  -- phase as the candidate.
  pub advance_phase-waits :
      (h : HysteresisConfig F) (raw : FlightPhase) (dt : F) (s : PhaseState F)
      → let s' = advance_phase h raw dt s in
        (s'.candidate_phase ≡ raw)
        × ((s'.current_phase ≡ raw)
            ⊎ (s'.was_airborne ≡ s.was_airborne) × (s'.current_phase ≡ s.current_phase))
  unfolding advance_phase
  advance_phase-waits h raw dt s = elim (Bool-cases (phase_eq raw s.current_phase)) [
    | inl e ↦ rw (e, advance_phase) (refl, inr (refl, refl))
    | inr e ↦
        elim (Bool-cases (
          needs_hysteresis s.current_phase raw
          && candidate_time raw dt s <? hysteresis_duration h s.current_phase raw)) [
            | inl k ↦ rw (e, k, advance_phase) (refl, inr (refl, refl))
            | inr k ↦ rw (e, k, advance_phase) (refl, inl refl)
          ]
  ]
