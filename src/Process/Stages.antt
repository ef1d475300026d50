-- ===== src/Process/Stages.antt =====
-- The counter through the pipeline: how often one call of `process` bumps it.
use xp_wellys_devfr_atc.Base.{◌≡◌, ◌⊎◌, inl, inr, true, false, Option-cases, arith}
use xp_wellys_devfr_atc.Double.{Double}
use xp_wellys_devfr_atc.Intent.{PilotMessage}
use xp_wellys_devfr_atc.Context.{XplaneContext}
use xp_wellys_devfr_atc.Readback.{ClearanceComponents}
use xp_wellys_devfr_atc.FlightPhase.{FlightPhase}
use xp_wellys_devfr_atc.Machine.{Machine, set_last_now_secs}
use xp_wellys_devfr_atc.Machine.Discipline.{
  Discipline, skip, same, heartbeat, arm, unassign, depart,
}
use xp_wellys_devfr_atc.World.{World}
use xp_wellys_devfr_atc.Env.{Env}
use xp_wellys_devfr_atc.Response.{Response}
use xp_wellys_devfr_atc.Response.Rules.{
  FlowFollows, then_follows, read_then_follows, modify_follows,
}
use xp_wellys_devfr_atc.Clearance.{apply_bzf_strict_check}
use xp_wellys_devfr_atc.Flows.CrossCountry.{leave_airport, check_airport_change}
use xp_wellys_devfr_atc.Flows.Corrections.{tower_only_initial_collapse}
use xp_wellys_devfr_atc.Flows.Corrections.Stages.{
  follows-apply_state_reverts, follows-apply_state_frequency_validity,
  follows-apply_frequency_auto_corrections,
}
use xp_wellys_devfr_atc.Flows.Ground.Stages.{
  follows-handle_negative_correction, follows-handle_info_flow, follows-handle_unicom_flow,
  follows-handle_frequency_hint, follows-handle_idle_redirects, follows-check_phase_precondition,
  follows-check_freq_precondition, follows-apply_initial_call_conformance,
}
use xp_wellys_devfr_atc.Hooks.Stages.{follows-hooks}
use xp_wellys_devfr_atc.Process.{
  promote, handle_repeat, reset_airborne, conclude, respond, early_guards, late_guards, pipeline,
  process,
}

-- The one stage that a discipline answers for itself: the airborne flag of a new departure.
module _ {F : Type 0} where
  -- For one message.
  abbrev pub LandsBy : Discipline F → XplaneContext F → PilotMessage → Type 0
  LandsBy D ctx msg = (m : Machine F) → D.R 1 m (reset_airborne msg ctx m)

  abbrev pub Lands : Discipline F → XplaneContext F → Type 0
  Lands D ctx = (msg : PilotMessage) → LandsBy D ctx msg

  -- For the message as the pipeline may change it.
  abbrev pub LandsBehind : Discipline F → Env F → XplaneContext F → PilotMessage → Type 0
  LandsBehind D env ctx msg =
      (m : Machine F) → LandsBy D ctx (tower_only_initial_collapse env ctx msg m)

module _ {F : Type 0} (D : Discipline F) where
  follows-handle_repeat :
      (env : Env F) (msg : PilotMessage) → FlowFollows D 0 (handle_repeat env msg)
  unfolding handle_repeat
  follows-handle_repeat env msg = record { at = λ m. same D m _ (ground arith) }

  follows-conclude :
      (env : Env F) (msg : PilotMessage) (ctx : XplaneContext F) (resp : Response)
      (components : ClearanceComponents) (m : Machine F)
      → D.R 10 m (conclude env msg ctx resp components m).0
  unfolding conclude
  follows-conclude env msg ctx resp components m =
      elim (Option-cases (apply_bzf_strict_check env msg m)) [
        | inl e ↦ rw (e, conclude) (follows-hooks D env msg ctx resp components m)
        | inr p ↦ rw (p.1, conclude) (D.loosen 10 (omega arith) (arm D true m))
      ]

  follows-leave_airport : (m : Machine F) → D.R 4 m (leave_airport m)
  unfolding leave_airport
  follows-leave_airport m =
      D.join {a = 3} {b = 1}
        (D.join {a = 2} {b = 1} (D.join {a = 1} {b = 1} (D.move _ _ m) (arm D false _))
          (unassign D _))
        (depart D _ _)

  -- The airport check beats the heart; then it leaves the machine alone or resets it.
  check_airport_change-cases :
      (ctx : XplaneContext F) (now_secs : F) (w : World F)
      → ((check_airport_change ctx now_secs w).machine ≡ set_last_now_secs now_secs w.machine)
        ⊎ ((check_airport_change ctx now_secs w).machine
            ≡ leave_airport (set_last_now_secs now_secs w.machine))
  unfolding check_airport_change
  check_airport_change-cases ctx now_secs w = ground arith

  pub follows-check_airport_change :
      (ctx : XplaneContext F) (now_secs : F) (w : World F)
      → D.R 4 w.machine (check_airport_change ctx now_secs w).machine
  follows-check_airport_change ctx now_secs w =
      D.join {a = 0} {b = 4} (heartbeat D now_secs w.machine)
        (elim (check_airport_change-cases ctx now_secs w) [
          | inl e ↦ rw e (skip D 4 _)
          | inr e ↦ rw e (follows-leave_airport _)
        ])

module _ {F : Type 0} ⦃d : Double F⦄ (D : Discipline F) where
  follows-respond :
      (env : Env F) (msg : PilotMessage) (ctx : XplaneContext F)
      → FlowFollows D 10 (respond env msg ctx)
  unfolding respond
  follows-respond env msg ctx = record { at = λ m. follows-conclude D env msg ctx _ _ m }

  follows-early_guards :
      (env : Env F) (msg : PilotMessage) (ctx : XplaneContext F)
      → FlowFollows D 9 (early_guards env msg ctx)
  unfolding early_guards
  follows-early_guards env msg ctx =
      then_follows D {a = 2} {b = 7} (follows-handle_negative_correction D env msg ctx) (
        then_follows D {a = 0} {b = 7} (follows-handle_repeat D env msg) (
          then_follows D {a = 2} {b = 5}
            (modify_follows D _ (follows-apply_state_reverts D env msg))
            (then_follows D {a = 1} {b = 4} (follows-handle_info_flow D env msg ctx) (
              then_follows D {a = 1} {b = 3} (follows-handle_unicom_flow D env msg ctx) (
                then_follows D {a = 0} {b = 3} (follows-handle_frequency_hint D env msg ctx) (
                  then_follows D {a = 1} {b = 2}
                    (modify_follows D _ (follows-apply_state_frequency_validity D env ctx))
                    (then_follows D {a = 1} {b = 1}
                      (modify_follows D _ (follows-apply_frequency_auto_corrections D env ctx))
                      (follows-handle_idle_redirects D env msg ctx))))))))

  follows-late_guards :
      (env : Env F) (phase : FlightPhase) (msg : PilotMessage) (ctx : XplaneContext F)
      → LandsBy D ctx msg
      → FlowFollows D 11 (late_guards env phase msg ctx)
  unfolding late_guards
  follows-late_guards env phase msg ctx lands =
      then_follows D {a = 0} {b = 11} (follows-check_phase_precondition D env phase msg ctx) (
        then_follows D {a = 0} {b = 11} (follows-check_freq_precondition D env msg ctx) (
          then_follows D {a = 1} {b = 10} (modify_follows D _ lands) (
            then_follows D {a = 0} {b = 10} (follows-apply_initial_call_conformance D env msg ctx)
              (follows-respond env msg ctx))))

  follows-pipeline :
      (env : Env F) (phase : FlightPhase) (msg : PilotMessage) (ctx : XplaneContext F)
      → LandsBehind D env ctx msg
      → FlowFollows D 20 (pipeline env phase msg ctx)
  unfolding pipeline
  follows-pipeline env phase msg ctx lands =
      then_follows D {a = 9} {b = 11} (follows-early_guards env msg ctx) (
        read_then_follows D {b = 11} (tower_only_initial_collapse env ctx msg)
          (λ collapsed. late_guards env phase collapsed ctx)
          (λ m.
            follows-late_guards env phase (tower_only_initial_collapse env ctx msg m) ctx
              (lands m)))

  pub follows-process_by :
      (env : Env F) (msg : PilotMessage) (ctx : XplaneContext F) (now_secs : F) (w : World F)
      → LandsBehind D env ctx (promote msg (set_last_now_secs now_secs w.machine))
      → D.R 24 w.machine (process env msg ctx now_secs w).0.machine
  unfolding process
  follows-process_by env msg ctx now_secs w lands =
      D.join {a = 0} {b = 24} (heartbeat D now_secs w.machine) (
        D.join {a = 4} {b = 20} (follows-check_airport_change D ctx now_secs _)
          ((follows-pipeline env _ (promote msg _) ctx lands).at _))

  pub follows-process :
      (env : Env F) (msg : PilotMessage) (ctx : XplaneContext F) (now_secs : F) (w : World F)
      → Lands D ctx
      → D.R 24 w.machine (process env msg ctx now_secs w).0.machine
  follows-process env msg ctx now_secs w lands =
      follows-process_by env msg ctx now_secs w (λ m. lands _)
