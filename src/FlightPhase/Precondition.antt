-- ===== src/FlightPhase/Precondition.antt =====
-- What the precondition of an intent promises.
use xp_wellys_devfr_atc.Base.{
  ◌≡◌, inl, inr, refl, Bool, true, false, String, Option, none, some, is_empty, any, lookup,
  Bool-cases, Option-cases, if◌then◌else◌, arith,
}
use xp_wellys_devfr_atc.FlightPhase.{
  FlightPhase, FlightRules, IntentPrecondition, phase_eq, rejection_for, check_precondition,
}

-- A phase is allowed if no rule names the intent, or the rule lists the phase.
abbrev pub allows : Option IntentPrecondition → FlightPhase → Bool
allows none phase = true
allows (some pc) phase = any (phase_eq phase) pc.allowed_phases

is_empty-if :
    (b : Bool) (x y : String)
    → is_empty (if b then x else y) ≡ (if b then is_empty x else is_empty y)
is_empty-if true x y = refl
is_empty-if false x y = refl

-- The rejection of a rule is never empty.
rejection_for-is_empty :
    (pc : IntentPrecondition) (phase : FlightPhase) → is_empty (rejection_for pc phase) ≡ false
unfolding rejection_for
rejection_for-is_empty pc phase = simp (rejection_for, is_empty-if) (ground arith)

module _ {F : Type 0} where
  -- The precondition of an intent gives the empty text exactly in the allowed phases: in any other
  -- phase there is something to say, whichever of the rule's three texts are missing.
  pub check_precondition-is_empty :
      (rules : FlightRules F) (intent_key : String) (phase : FlightPhase)
      → is_empty (check_precondition rules intent_key phase)
        ≡ allows (lookup intent_key rules.preconditions) phase
  unfolding check_precondition
  check_precondition-is_empty rules intent_key phase =
      elim (Option-cases (lookup intent_key rules.preconditions)) [
        | inl e ↦ rw (e, check_precondition) refl
        | inr p ↦
            rw (p.1, check_precondition)
              (elim (Bool-cases (any (phase_eq phase) p.0.allowed_phases)) [
                | inl e ↦ rw e refl
                | inr e ↦ rw e (rejection_for-is_empty p.0 phase)
              ])
      ]
