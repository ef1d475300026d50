-- ===== src/AutoCorrection.antt =====
-- The per-frame correction of the state by the flight phase (`check_auto_correction` of
-- src/atc/atc_state_machine.cpp).
pub mod Stages
pub mod Timer
use xp_wellys_devfr_atc.Base.{
  Bool, true, false, not, ◌&&◌, ◌||◌, String, Option, none, some, List, [], ◌∷◌, any, find,
  is_empty, text_eq, concat, if◌then◌else◌,
}
use xp_wellys_devfr_atc.Double.{Double, ◌≤?◌, add, mul, whole}
use xp_wellys_devfr_atc.State.{AtcState, idle, unicom_active, state_eq, state_name, state_from_name}
use xp_wellys_devfr_atc.FlightPhase.{FlightPhase, AutoCorrection, phase_eq, get_auto_corrections}
use xp_wellys_devfr_atc.Machine.{Machine, bump_gen, transition_to, set_last_now_secs}
use xp_wellys_devfr_atc.Env.{Env}

module _ {F : Type 0} where
  abbrev in_phase : FlightPhase → String × AutoCorrection F → Bool
  in_phase phase (_, ac) = any (phase_eq phase) ac.phases

  -- The first correction whose phases hold the current one.
  unfoldable pub matching :
      FlightPhase → List (String × AutoCorrection F) → Option (String × AutoCorrection F)
  matching phase corrections = find (in_phase phase) corrections

module _ {F : Type 0} ⦃d : Double F⦄ where
  unfoldable pub reset_timer : Machine F → Machine F
  reset_timer m = record m { active_correction_key = ""; correction_timer = whole 0 }

  -- The timer of this frame: it starts anew for another key.
  unfoldable pub tick : String → F → Machine F → Machine F
  tick key dt m = record m {
    active_correction_key = key;
    correction_timer =
        add (if text_eq key m.active_correction_key then m.correction_timer else whole 0) dt;
  }

  -- The correction itself.
  unfoldable pub fire : String → AtcState → Machine F → Machine F
  unfolding bump_gen reset_timer
  fire cond_name new_state m =
      let moved = transition_to new_state (concat ("auto_correction:" ∷ cond_name ∷ [])) m in
      let settled = record (bump_gen moved) { readback_pending = false } in
      reset_timer (
        if state_eq new_state idle
        then record settled { assigned_runway = ""; session_callsign = "" }
        else settled)

  unfoldable pub correct_by : Env F → F → String × AutoCorrection F → Machine F → Machine F
  unfolding tick
  correct_by env dt (cond_name, ac) m =
      let key = concat (state_name m.departure_type m.state ∷ ":" ∷ cond_name ∷ []) in
      let ticked = tick key dt m in
      if mul ac.delay_sec env.settings.auto_correction_factor ≤? ticked.correction_timer
      then fire cond_name (state_from_name ac.next_state) ticked
      else ticked

  unfoldable pub check_auto_correction : Env F → FlightPhase → F → F → Machine F → Machine F
  unfolding correct_by reset_timer
  check_auto_correction env phase dt now_secs m0 =
      let m = set_last_now_secs now_secs m0 in
      if state_eq m.state idle || state_eq m.state unicom_active
      then m
      else elim (get_auto_corrections env.rules (state_name m.departure_type m.state)) [
        | none ↦ m
        | some corrections ↦ elim (matching phase corrections) [
          | none ↦ reset_timer m
          | some entry ↦ correct_by env dt entry m
        ]
      ]
