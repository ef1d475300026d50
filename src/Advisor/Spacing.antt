-- ===== src/Advisor/Spacing.antt =====
-- What holds of the advisory that `evaluate` gives.
use xp_wellys_devfr_atc.Base.{
  ℕ, ◌≡◌, ◌⊎◌, inl, inr, refl, Bool, true, false, ◌&&◌, Option, none, some, find-cases, get_elem?,
  Bool-cases, if◌then◌else◌, arith,
}
use xp_wellys_devfr_atc.Double.{Double, ◌<?◌, sub, whole}
use xp_wellys_devfr_atc.Traffic.{TrafficTarget, TrafficContext}
use xp_wellys_devfr_atc.Advisor.{
  UserState, AdvisoryHistory, TrafficAdvisory, time_of, ground_advice, airborne_advice,
  cooling_down, conflicts, reportable, target_qualifies, ground_target_qualifies, gating_passes,
  evaluate_ground_conflict, evaluate_airborne, evaluate,
}

module _ {F : Type 0} ⦃d : Double F⦄ where
  -- The pauses before a call-out: since any, since the last about this aircraft, and since the pilot
  -- had it in sight.
  abbrev pub IsPaused : AdvisoryHistory F → F → ℕ → Bool → Type 0
  IsPaused history now_secs id true =
      ((sub now_secs history.last_global_emit_secs <? whole 20) ≡ false)
      × (cooling_down (time_of id history.last_issued_secs) now_secs (whole 60) ≡ false)
      × (cooling_down (time_of id history.acknowledged_visual_secs) now_secs (whole 300) ≡ false)
  IsPaused history now_secs id false =
      ((sub now_secs history.last_global_emit_secs <? whole 15) ≡ false)
      × (cooling_down (time_of id history.last_issued_secs) now_secs (whole 30) ≡ false)

  -- The aircraft that the call-out is about.
  abbrev pub IsAbout : TrafficContext F → UserState F → TrafficAdvisory → Type 0
  IsAbout traffic user adv =
      (i : ℕ) × (t : TrafficTarget F) × (get_elem? traffic.targets i ≡ some t)
      × (adv.modes_id ≡ t.modes_id)
      × ((if adv.requires_ack
            then gating_passes user && target_qualifies t user
            else user.user_taxiing && ground_target_qualifies t)
          ≡ true)

  -- Silence, or advice that keeps its pauses and is about a fitting aircraft.
  abbrev pub Advises :
      TrafficContext F → UserState F → AdvisoryHistory F → F → Option TrafficAdvisory → Type 0
  Advises traffic user history now_secs result =
      (result ≡ none)
      ⊎ (adv : TrafficAdvisory) × (result ≡ some adv)
        × IsPaused history now_secs adv.modes_id adv.requires_ack
        × IsAbout traffic user adv

  conflicts_parts :
      (user : UserState F) (history : AdvisoryHistory F) (now_secs : F) (t : TrafficTarget F)
      → conflicts user history now_secs t ≡ true
      → (ground_target_qualifies t ≡ true)
        × (cooling_down (time_of t.modes_id history.last_issued_secs) now_secs (whole 30) ≡ false)
  unfolding conflicts
  conflicts_parts user history now_secs t h = (ground arith, ground arith)

  reportable_parts :
      (user : UserState F) (history : AdvisoryHistory F) (now_secs : F) (t : TrafficTarget F)
      → reportable user history now_secs t ≡ true
      → (target_qualifies t user ≡ true)
        × (cooling_down (time_of t.modes_id history.last_issued_secs) now_secs (whole 60) ≡ false)
        × (cooling_down (time_of t.modes_id history.acknowledged_visual_secs) now_secs (whole 300)
            ≡ false)
  unfolding reportable
  reportable_parts user history now_secs t h = (ground arith, ground arith, ground arith)

  evaluate_ground_conflict-Advises :
      (traffic : TrafficContext F) (user : UserState F) (history : AdvisoryHistory F) (now_secs : F)
      → Advises traffic user history now_secs
          (evaluate_ground_conflict traffic user history now_secs)
  unfolding evaluate_ground_conflict
  evaluate_ground_conflict-Advises traffic user history now_secs =
      elim (Bool-cases user.user_taxiing) [
        | inr e ↦ inl (rw (e, evaluate_ground_conflict) refl)
        | inl e ↦ elim (Bool-cases (sub now_secs history.last_global_emit_secs <? whole 15)) [
          | inl g ↦ inl (rw (e, g, evaluate_ground_conflict) refl)
          | inr g ↦ elim (find-cases (conflicts user history now_secs) traffic.targets) [
            | inl (_, f) ↦ inl (rw (e, g, f, evaluate_ground_conflict) refl)
            | inr (i, t, _, f, at, ok) ↦
                let (fits, ready) = conflicts_parts user history now_secs t ok in
                inr (
                  ground_advice t,
                  rw (e, g, f, evaluate_ground_conflict) refl,
                  (g, ready),
                  (i, t, at, refl, rw e fits),
                )
          ]
        ]
      ]

  evaluate_airborne-Advises :
      (traffic : TrafficContext F) (user : UserState F) (history : AdvisoryHistory F) (now_secs : F)
      → Advises traffic user history now_secs (evaluate_airborne traffic user history now_secs)
  unfolding evaluate_airborne
  evaluate_airborne-Advises traffic user history now_secs = elim (Bool-cases (gating_passes user)) [
    | inr e ↦ inl (rw (e, evaluate_airborne) refl)
    | inl e ↦ elim (Bool-cases (sub now_secs history.last_global_emit_secs <? whole 20)) [
      | inl g ↦ inl (rw (e, g, evaluate_airborne) refl)
      | inr g ↦ elim (find-cases (reportable user history now_secs) traffic.targets) [
        | inl (_, f) ↦ inl (rw (e, g, f, evaluate_airborne) refl)
        | inr (i, t, _, f, at, ok) ↦
            let (fits, ready, unseen) = reportable_parts user history now_secs t ok in
            inr (
              airborne_advice user t,
              rw (e, g, f, evaluate_airborne) refl,
              (g, ready, unseen),
              (i, t, at, refl, rw e fits),
            )
      ]
    ]
  ]

  -- Advice is about an aircraft of the snapshot that meets the conditions of its kind, on the ground or
  -- in the air, and every pause of that kind is over.
  pub evaluate-Advises :
      (traffic : TrafficContext F) (user : UserState F) (history : AdvisoryHistory F) (now_secs : F)
      → Advises traffic user history now_secs (evaluate traffic user history now_secs)
  unfolding evaluate
  evaluate-Advises traffic user history now_secs =
      elim (evaluate_ground_conflict-Advises traffic user history now_secs) [
        | inl e ↦ rw (e, evaluate) (evaluate_airborne-Advises traffic user history now_secs)
        | inr (adv, e, paused, about) ↦ inr (adv, rw (e, evaluate) refl, paused, about)
      ]
