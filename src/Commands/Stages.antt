-- ===== src/Commands/Stages.antt =====
-- Every command is a stage, and so is a session: each command bumps the counter at most 24 times.
use xp_wellys_devfr_atc.Base.{
  ℕ, ◌*◌, ◌≤◌, ◌≡◌, inl, inr, refl, Bool, true, false, not, ◌&&◌, ◌||◌, List, [], ◌∷◌, length,
  Bool-cases, text_eq, arith,
}
use xp_wellys_devfr_atc.Double.{Double}
use xp_wellys_devfr_atc.State.{AtcState, state_eq, idle, ground_contact, pattern}
use xp_wellys_devfr_atc.Context.{XplaneContext}
use xp_wellys_devfr_atc.FlightPhase.{FlightPhase, is_airborne}
use xp_wellys_devfr_atc.Settings.{Settings}
use xp_wellys_devfr_atc.Machine.{
  Machine, transition_to, set_flight_intent_cross_country, set_flight_intent_pattern,
}
use xp_wellys_devfr_atc.Machine.Discipline.{Discipline, SessionRules, skip, choice}
use xp_wellys_devfr_atc.World.{
  World, init, stop, reset, begin_fresh_flight, disregard_machine, drop_dialog, disregard,
  set_state,
}
use xp_wellys_devfr_atc.Env.{Env}
use xp_wellys_devfr_atc.Hooks.Stages.{follows-release_locks}
use xp_wellys_devfr_atc.Process.Stages.{follows-check_airport_change, follows-process, Lands}
use xp_wellys_devfr_atc.Process.{reset_airborne}
use xp_wellys_devfr_atc.AutoCorrection.Stages.{follows-check_auto_correction}
use xp_wellys_devfr_atc.PhaseTracker.{note_airborne, update}
use xp_wellys_devfr_atc.Commands.{
  Command, start, end_module, sweep_all, fresh_flight, drop, force_state, mark_airborne,
  plan_cross_country, plan_pattern, transmit, frame_airport, frame_correction, frame_phase, execute,
  session,
}

module _ {F : Type 0} (D : Discipline F) where
  follows-set_state : (s : AtcState) (m : Machine F) → D.R 3 m (set_state s m)
  unfolding set_state
  follows-set_state s m =
      D.join {a = 1} {b = 2} (D.move _ _ m)
        (choice D (state_eq s idle) (follows-release_locks D _) (skip D 2 _))

module _ {F : Type 0} where
  abbrev released : Machine F → Machine F
  released m = record m { assigned_runway = ""; session_callsign = ""; departure_type = pattern }

  -- The locks that `disregard` releases last may as well be released first.
  release_early :
      (m : Machine F)
      → released (transition_to idle "disregard_on_ground" m)
        ≡ transition_to idle "disregard_on_ground" (released m)
  unfolding transition_to
  release_early m = ground arith

module _ {F : Type 0} ⦃d : Double F⦄ (D : Discipline F) (rules : SessionRules D) where
  follows-init : (settings : Settings F) (w : World F) → D.R 1 w.machine (init settings w).machine
  unfolding init
  follows-init settings w =
      choice D (text_eq settings.start_mode "ready_for_takeoff")
        (rules.restart w.machine _ refl refl) (rules.restart w.machine _ refl refl)

  follows-reset : (w : World F) → D.R 1 w.machine (reset w).machine
  unfolding reset
  follows-reset w = rules.restart w.machine _ refl refl

  follows-stop : (w : World F) → D.R 1 w.machine (stop w).machine
  unfolding stop
  follows-stop w = rules.restart w.machine _ refl refl

  follows-begin_fresh_flight :
      (on_ground : Bool) (w : World F) → D.R 1 w.machine (begin_fresh_flight on_ground w).machine
  unfolding begin_fresh_flight
  follows-begin_fresh_flight on_ground w =
      elim (Bool-cases
        (on_ground && (state_eq w.machine.state idle || state_eq w.machine.state ground_contact))) [
          | inl e ↦ rw (e, begin_fresh_flight) (follows-reset w)
          | inr e ↦ rw (e, begin_fresh_flight) (skip D 1 w.machine)
        ]

  follows-disregard_machine :
      (ctx : XplaneContext F) (phase : FlightPhase) (now_secs : F) (m : Machine F)
      → D.R 2 m (disregard_machine ctx phase now_secs m)
  unfolding disregard_machine transition_to
  follows-disregard_machine ctx phase now_secs m = elim (Bool-cases (not (is_airborne phase))) [
    | inl e ↦
        rw (e, disregard_machine, release_early (drop_dialog now_secs m))
          (D.join {a = 1} {b = 1} (D.write m _ (refl, refl, refl, refl))
            (D.move idle "disregard_on_ground" _))
    | inr e ↦
        rw (e, disregard_machine)
          (D.join {a = 1} {b = 1} (D.write m _ (refl, refl, refl, refl)) (D.move _ _ _))
  ]

  follows-reset_airborne : (ctx : XplaneContext F) → Lands D ctx
  unfolding reset_airborne
  follows-reset_airborne ctx msg m = choice D _ (rules.fly false m) (skip D 1 m)

  follows-note_airborne : (phase : FlightPhase) (m : Machine F) → D.R 1 m (note_airborne phase m)
  unfolding note_airborne
  follows-note_airborne phase m = choice D (is_airborne phase) (rules.fly true m) (skip D 1 m)

  follows-update :
      (env : Env F) (ctx : XplaneContext F) (dt : F) (w : World F)
      → D.R 2 w.machine (update env ctx dt w).machine
  unfolding update
  follows-update env ctx dt w =
      D.join {a = 1} {b = 1} (follows-note_airborne w.flight.current_phase w.machine)
        (follows-note_airborne _ _)

  most : {n : ℕ} {m m' : Machine F} → n ≤ 24 → D.R n m m' → D.R 24 m m'
  most h p = D.loosen 24 h p

  pub follows-execute :
      (env : Env F) (c : Command F) (w : World F) → D.R 24 w.machine (execute env c w).machine
  unfolding execute disregard disregard_machine set_flight_intent_cross_country
      set_flight_intent_pattern
  follows-execute env (start settings) w = most (omega arith) (follows-init settings w)
  follows-execute env end_module w = most (omega arith) (follows-stop w)
  follows-execute env sweep_all w = most (omega arith) (follows-reset w)
  follows-execute env (fresh_flight g) w = most (omega arith) (follows-begin_fresh_flight g w)
  follows-execute env (drop ctx phase t) w =
      most (omega arith) (follows-disregard_machine ctx phase t w.machine)
  follows-execute env (force_state s) w = most (omega arith) (follows-set_state D s w.machine)
  follows-execute env (mark_airborne v) w = most (omega arith) (rules.fly v w.machine)
  follows-execute env (plan_cross_country dest) w =
      most (omega arith) (D.write w.machine _ (refl, refl, refl, refl))
  follows-execute env plan_pattern w =
      most (omega arith) (D.write w.machine _ (refl, refl, refl, refl))
  follows-execute env (transmit msg ctx t) w =
      follows-process D env msg ctx t w (follows-reset_airborne ctx)
  follows-execute env (frame_airport ctx t) w =
      most (omega arith) (follows-check_airport_change D ctx t w)
  follows-execute env (frame_correction phase dt t) w =
      most (omega arith) (follows-check_auto_correction D env phase dt t w.machine)
  follows-execute env (frame_phase ctx dt) w = most (omega arith) (follows-update env ctx dt w)

  pub follows-session :
      (cs : List (Env F × Command F)) (w : World F)
      → D.R (24 * length cs) w.machine (session cs w).machine
  unfolding session
  follows-session [] w = skip D _ w.machine
  follows-session ((env, c) ∷ cs) w = D.loosen _ (omega arith) (
      D.join {a = 24} {b = 24 * length cs} (follows-execute env c w)
        (follows-session cs (execute env c w)))
