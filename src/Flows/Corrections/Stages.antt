-- ===== src/Flows/Corrections/Stages.antt =====
-- The counter through the stages that only change the machine.
use xp_wellys_devfr_atc.Base.{
  ◌≡◌, ◌⊎◌, inl, inr, not, ◌&&◌, String, Bool-cases, Option-cases, find, arith,
}
use xp_wellys_devfr_atc.State.{idle, state_eq, departure_cleared, state_from_name}
use xp_wellys_devfr_atc.Intent.{PilotMessage, intent_template_key}
use xp_wellys_devfr_atc.Radio.{FrequencyType, frequency_eq}
use xp_wellys_devfr_atc.Context.{XplaneContext}
use xp_wellys_devfr_atc.FlightPhase.{
  StateRevert, FrequencyAutoCorrection, get_frequency_auto_corrections,
}
use xp_wellys_devfr_atc.Machine.{Machine}
use xp_wellys_devfr_atc.Machine.Discipline.{Discipline, skip, move_once, choice, depart}
use xp_wellys_devfr_atc.Env.{Env}
use xp_wellys_devfr_atc.Flows.Corrections.{
  on_frequency, reverts, name_now, revert_target, correct, revert_by, apply_state_reverts,
  apply_state_frequency_validity, advance_by, apply_frequency_auto_corrections,
}

module _ {F : Type 0} where
  apply_frequency_auto_corrections-cases :
      (env : Env F) (ctx : XplaneContext F) (m : Machine F)
      → (apply_frequency_auto_corrections env ctx m ≡ m)
        ⊎ (rule : String × FrequencyAutoCorrection) × (apply_frequency_auto_corrections env ctx m
            ≡ advance_by rule m)
  unfolding apply_frequency_auto_corrections
  apply_frequency_auto_corrections-cases env ctx m =
      elim (Bool-cases (ctx.tower_only && frequency_eq ctx.frequency_type FrequencyType.tower)) [
        | inl e ↦ inl (simp (apply_frequency_auto_corrections, e))
        | inr e ↦ elim (Option-cases (get_frequency_auto_corrections env.rules (name_now m))) [
          | inl n ↦ inl (simp (apply_frequency_auto_corrections, e, n))
          | inr p ↦ elim (Option-cases (find (on_frequency ctx.frequency_type) p.0)) [
            | inl n ↦ inl (simp (apply_frequency_auto_corrections, e, p.1, n))
            | inr q ↦ inr (q.0, simp (apply_frequency_auto_corrections, e, p.1, q.1))
          ]
        ]
      ]

module _ {F : Type 0} (D : Discipline F) where
  pub follows-correct : (m : Machine F) → D.R 2 m (correct m)
  unfolding correct
  follows-correct m =
      choice D (not (state_eq (revert_target m.state) m.state))
        (D.join {a = 1} {b = 1} (D.move _ _ m)
          (choice D (state_eq m.state departure_cleared) (depart D _ _) (skip D 1 _)))
        (skip D 2 m)

  follows-revert_by : (r : StateRevert) (m : Machine F) → D.R 2 m (revert_by r m)
  unfolding revert_by
  follows-revert_by r m =
      D.join {a = 1} {b = 1} (D.move _ _ m)
        (choice D r.reset_departure_type (depart D _ _) (skip D 1 _))

  pub follows-apply_state_reverts :
      (env : Env F) (msg : PilotMessage) (m : Machine F) → D.R 2 m (apply_state_reverts env msg m)
  unfolding apply_state_reverts
  follows-apply_state_reverts env msg m =
      elim (Option-cases
        (find (reverts (name_now m) (intent_template_key msg.intent)) env.rules.state_reverts)) [
          | inl e ↦ rw (e, apply_state_reverts) (skip D 2 m)
          | inr p ↦ rw (p.1, apply_state_reverts) (follows-revert_by p.0 m)
        ]

  pub follows-apply_state_frequency_validity :
      (env : Env F) (ctx : XplaneContext F) (m : Machine F)
      → D.R 1 m (apply_state_frequency_validity env ctx m)
  unfolding apply_state_frequency_validity
  follows-apply_state_frequency_validity env ctx m =
      move_once D idle "freq_validity_reset" m _ (ground arith)

  follows-advance_by :
      (rule : String × FrequencyAutoCorrection) (m : Machine F) → D.R 1 m (advance_by rule m)
  unfolding advance_by
  follows-advance_by (cond_name, rule) m =
      choice D (not (state_eq (state_from_name rule.next_state) m.state)) (D.move _ _ m)
        (skip D 1 m)

  pub follows-apply_frequency_auto_corrections :
      (env : Env F) (ctx : XplaneContext F) (m : Machine F)
      → D.R 1 m (apply_frequency_auto_corrections env ctx m)
  unfolding apply_frequency_auto_corrections
  follows-apply_frequency_auto_corrections env ctx m =
      elim (apply_frequency_auto_corrections-cases env ctx m) [
        | inl e ↦ rw e (skip D 1 m)
        | inr p ↦ rw p.1 (follows-advance_by p.0 m)
      ]
