-- ===== src/AutoCorrection/Stages.antt =====
-- The frame's correction, as a stage.
use xp_wellys_devfr_atc.Base.{
  ◌≡◌, ◌⊎◌, inl, inr, refl, ◌||◌, true, String, List, [], ◌∷◌, concat, none, some, Bool-cases,
  Option-cases, arith,
}
use xp_wellys_devfr_atc.Double.{Double, ◌≤?◌, mul}
use xp_wellys_devfr_atc.State.{AtcState, state_eq, state_name, idle, unicom_active}
use xp_wellys_devfr_atc.FlightPhase.{FlightPhase, AutoCorrection, get_auto_corrections}
use xp_wellys_devfr_atc.Machine.{Machine, set_last_now_secs}
use xp_wellys_devfr_atc.Machine.Discipline.{Discipline, skip, once, choice, heartbeat}
use xp_wellys_devfr_atc.Env.{Env}
use xp_wellys_devfr_atc.AutoCorrection.{
  reset_timer, tick, fire, correct_by, matching, check_auto_correction,
}

module _ {F : Type 0} ⦃d : Double F⦄ where
  -- No correction is looked for: in IDLE and UNICOM_ACTIVE, and in a state without rules.
  abbrev pub IsExempt : Env F → Machine F → Type 0
  IsExempt env m =
      ((state_eq m.state idle || state_eq m.state unicom_active) ≡ true)
      ⊎ (get_auto_corrections env.rules (state_name m.departure_type m.state) ≡ none)

  -- Behind the heartbeat a frame leaves the machine alone, resets the timer, or applies a rule.
  pub check_auto_correction-cases :
      (env : Env F) (phase : FlightPhase) (dt now_secs : F) (m0 : Machine F)
      → let m = set_last_now_secs now_secs m0 in
        let m' = check_auto_correction env phase dt now_secs m0 in
        IsExempt env m0 × (m' ≡ m)
        ⊎ ((corrections : List (String × AutoCorrection F)) × (get_auto_corrections env.rules
                (state_name m0.departure_type m0.state)
              ≡ some corrections)
            × (matching phase corrections ≡ none)
            × (m' ≡ reset_timer m))
        ⊎ (corrections : List (String × AutoCorrection F)) × (entry : String × AutoCorrection F)
          × (get_auto_corrections env.rules (state_name m0.departure_type m0.state)
              ≡ some corrections)
          × (matching phase corrections ≡ some entry)
          × (m' ≡ correct_by env dt entry m)
  unfolding check_auto_correction set_last_now_secs
  check_auto_correction-cases env phase dt now_secs m0 =
      elim (Bool-cases (state_eq m0.state idle || state_eq m0.state unicom_active)) [
        | inl e ↦ inl (inl e, simp (check_auto_correction, set_last_now_secs, e))
        | inr e ↦
            elim (Option-cases
              (get_auto_corrections env.rules (state_name m0.departure_type m0.state))) [
                | inl none_of ↦
                    inl (inr none_of, simp (check_auto_correction, set_last_now_secs, e, none_of))
                | inr p ↦ elim (Option-cases (matching phase p.0)) [
                  | inl no_match ↦ inr (
                      inl (
                        p.0,
                        p.1,
                        no_match,
                        simp (check_auto_correction, set_last_now_secs, e, p.1, no_match),
                      ))
                  | inr q ↦ inr (
                      inr (
                        p.0,
                        q.0,
                        p.1,
                        q.1,
                        simp (check_auto_correction, set_last_now_secs, e, p.1, q.1),
                      ))
                ]
              ]
      ]

module _ {F : Type 0} ⦃d : Double F⦄ (D : Discipline F) where
  follows-reset_timer : (m : Machine F) → D.R 0 m (reset_timer m)
  unfolding reset_timer
  follows-reset_timer m = D.beat m _ refl refl

  follows-fire :
      (cond_name : String) (next : AtcState) (m : Machine F) → D.R 2 m (fire cond_name next m)
  unfolding fire
  follows-fire cond_name next m =
      D.join {a = 1} {b = 1} (D.move next (concat ("auto_correction:" ∷ cond_name ∷ [])) m)
        (once D _ _ (ground arith))

  follows-tick : (key : String) (dt : F) (m : Machine F) → D.R 0 m (tick key dt m)
  unfolding tick
  follows-tick key dt m = D.beat m _ refl refl

  follows-correct_by :
      (env : Env F) (dt : F) (entry : String × AutoCorrection F) (m : Machine F)
      → D.R 2 m (correct_by env dt entry m)
  unfolding correct_by
  follows-correct_by env dt (cond_name, ac) m = D.join {a = 0} {b = 2} (follows-tick _ dt m) (
      choice D (mul ac.delay_sec env.settings.auto_correction_factor ≤? _)
        (follows-fire cond_name _ _) (skip D 2 _))

  pub follows-check_auto_correction :
      (env : Env F) (phase : FlightPhase) (dt now_secs : F) (m : Machine F)
      → D.R 2 m (check_auto_correction env phase dt now_secs m)
  follows-check_auto_correction env phase dt now_secs m =
      D.join {a = 0} {b = 2} (heartbeat D now_secs m)
        (elim (check_auto_correction-cases env phase dt now_secs m) [
          | inl (_, e) ↦ rw e (skip D 2 _)
          | inr (inl (_, _, _, e)) ↦ rw e (D.loosen 2 (omega arith) (follows-reset_timer _))
          | inr (inr p) ↦ rw p.4 (follows-correct_by env dt p.1 _)
        ])
