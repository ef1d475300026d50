-- ===== src/Tests/Dialogs.antt =====
-- The theorems of the dialog at concrete inputs.
use xp_wellys_devfr_atc.Base.{
  ◌≡◌, ◌≢◌, ◌⊎◌, refl, ap, true, false, List, ◌+◌, ◌%◌, [], ◌∷◌, if◌then◌else◌, arith,
}
use xp_wellys_devfr_atc.Double.{whole}
use xp_wellys_devfr_atc.Double.Fixed.{Fixed, fixed_double}
use xp_wellys_devfr_atc.State.{AtcState, state_index}
use xp_wellys_devfr_atc.Intent.{PilotIntent}
use xp_wellys_devfr_atc.Readback.{no_clearance}
use xp_wellys_devfr_atc.FlightPhase.{FlightPhase, AutoCorrection, is_airborne}
use xp_wellys_devfr_atc.Machine.{u64_mod, transition_to, set_last_now_secs, set_was_airborne}
use xp_wellys_devfr_atc.Machine.Discipline.{semantics}
use xp_wellys_devfr_atc.Machine.History.{IsTraced}
use xp_wellys_devfr_atc.World.{World, begin_fresh_flight, disregard, set_state, is_near_airport}
use xp_wellys_devfr_atc.World.Fresh.{
  IsReleased, IsFresh, IsQuiet, begin_fresh_flight-outcome, disregard-outcome,
}
use xp_wellys_devfr_atc.Env.{Env}
use xp_wellys_devfr_atc.Response.{Response}
use xp_wellys_devfr_atc.Flows.CrossCountry.{check_airport_change}
use xp_wellys_devfr_atc.Clearance.Strict.{Held, complete, conclude-strict}
use xp_wellys_devfr_atc.Clearance.{strict_applies}
use xp_wellys_devfr_atc.Dialog
use xp_wellys_devfr_atc.Hooks.{advance_name, settle, apply_post_transition_hooks}
use xp_wellys_devfr_atc.Hooks.Session.{Disarmed, hooks-end_session}
use xp_wellys_devfr_atc.Process.{process, conclude, outcome_response}
use xp_wellys_devfr_atc.Process.Airborne.{IsFlagKept, was_airborne-process}
use xp_wellys_devfr_atc.Process.Repeat.{process-repeat}
use xp_wellys_devfr_atc.Commands.{Command, force_state, mark_airborne, execute, session}
use xp_wellys_devfr_atc.Commands.Histories.{session-IsTraced}
use xp_wellys_devfr_atc.Snapshot.{capture_snapshot, current_gen, restore_snapshot_if_gen}
use xp_wellys_devfr_atc.Snapshot.Guard.{restore_stale, restore_once}
use xp_wellys_devfr_atc.Tests.Data.{
  idle_machine, cleared_machine, idle_world, ramp, aloft, env, says,
}

-- A session that leaves IDLE.
abbrev to_tower : List (Env Fixed × Command Fixed)
to_tower = (env, force_state AtcState.tower_contact) ∷ (env, mark_airborne false) ∷ []

state_after_to_tower : (session to_tower idle_world).machine.state ≡ AtcState.tower_contact
unfolding session execute set_state transition_to set_was_airborne
state_after_to_tower = refl

to_tower_changes : semantics (session to_tower idle_world).machine ≢ semantics idle_world.machine
unfolding session execute set_state transition_to set_was_airborne
to_tower_changes e =
    let moved : 3 ≡ 0 = ap (λ s. state_index s.state) e in absurd (omega (arith, moved))

restore_stale_example :
    restore_snapshot_if_gen
      (capture_snapshot idle_machine)
      (current_gen idle_machine)
      (session to_tower idle_world).machine
    ≡ ((session to_tower idle_world).machine, false)
restore_stale_example = restore_stale to_tower idle_world (omega arith) to_tower_changes

session-IsTraced_example : IsTraced (session to_tower idle_world).machine
session-IsTraced_example = session-IsTraced to_tower idle_world (omega arith, tt)

abbrev taxi_reply : Response
taxi_reply = record {
  text = "Rollen Sie zum Rollhalt Piste 25.";
  next_state = AtcState.taxi_cleared;
  requires_readback = true;
}

-- What the spoken clearance leaves.
abbrev spoken_world : World Fixed
spoken_world = record idle_world {
  machine =
      (apply_post_transition_hooks env (says PilotIntent.request_taxi "erbitte rollen") ramp
        taxi_reply no_clearance idle_machine).0;
}

process-repeat_example :
    let r =
      process env
        (says PilotIntent.request_repeat "wiederholen Sie")
        aloft
        (whole 101)
        spoken_world in
    let checked =
      check_airport_change aloft
        (whole 101)
        (record spoken_world { machine = set_last_now_secs (whole 101) spoken_world.machine }) in
    (r.1.text ≡ taxi_reply.text)
    × (r.0 ≡ checked)
    × (r.0.machine.last_tower_response_text ≡ taxi_reply.text)
    × (r.1.next_state ≡ checked.machine.state)
    × (r.1.requires_readback ≡ checked.machine.readback_pending)
process-repeat_example =
    process-repeat env env (says PilotIntent.request_taxi "erbitte rollen")
      (says PilotIntent.request_repeat "wiederholen Sie") ramp aloft taxi_reply no_clearance
      idle_machine (whole 101) spoken_world refl refl refl

was_airborne-process_example :
    IsFlagKept ramp PilotIntent.request_taxi idle_world.machine.was_airborne
      (process env
        (says PilotIntent.request_taxi "erbitte rollen")
        ramp
        (whole 101)
        idle_world).0.machine.was_airborne
was_airborne-process_example =
    was_airborne-process env (says PilotIntent.request_taxi "erbitte rollen") ramp (whole 101)
      idle_world

-- The tower dismisses the pilot.
abbrev goodbye : Response
goodbye = record {
  text = "D-EABC, Verlassen der Frequenz genehmigt.";
  next_state = AtcState.idle;
  requires_readback = false;
}

stays_idle :
    advance_name env ramp (
      settle
        (says PilotIntent.leaving_frequency "verlasse die Frequenz")
        ramp
        goodbye
        no_clearance
        cleared_machine)
    ≡ ""
unfolding advance_name
stays_idle = refl

hooks-end_session_example :
    let m' =
      (apply_post_transition_hooks env
        (says PilotIntent.leaving_frequency "verlasse die Frequenz")
        ramp
        goodbye
        no_clearance
        cleared_machine).0 in
    (m'.state ≡ AtcState.idle) × IsReleased m'
hooks-end_session_example =
    hooks-end_session env (says PilotIntent.leaving_frequency "verlasse die Frequenz") ramp goodbye
      no_clearance cleared_machine refl refl stays_idle

restore_once_example :
    let m1 =
      (restore_snapshot_if_gen
        (capture_snapshot cleared_machine)
        (current_gen idle_machine)
        idle_machine).0 in
    (restore_snapshot_if_gen
        (capture_snapshot cleared_machine)
        (current_gen idle_machine)
        idle_machine).1
      ≡ true
    × semantics m1 ≡ semantics cleared_machine
    × m1.last_now_secs ≡ cleared_machine.last_now_secs
    × m1.active_correction_key ≡ cleared_machine.active_correction_key
    × m1.correction_timer ≡ cleared_machine.correction_timer
    × m1.gen ≡ (idle_machine.gen + 1) % u64_mod
    × restore_snapshot_if_gen cleared_machine (current_gen idle_machine) m1 ≡ (m1, false)
restore_once_example = restore_once cleared_machine cleared_machine idle_machine

applies_here : strict_applies env (says PilotIntent.readback "D-EABC rolle") cleared_machine ≡ true
unfolding strict_applies
applies_here = refl

conclude-strict_example :
    let m' =
      (conclude env
        (says PilotIntent.readback "D-EABC rolle")
        ramp
        goodbye
        no_clearance
        cleared_machine).0 in
    let reply' =
      outcome_response
        (conclude env
          (says PilotIntent.readback "D-EABC rolle")
          ramp
          goodbye
          no_clearance
          cleared_machine).1 in
    (complete env (says PilotIntent.readback "D-EABC rolle") cleared_machine ≡ false
      × Held cleared_machine m' reply')
    ⊎ (complete env (says PilotIntent.readback "D-EABC rolle") cleared_machine ≡ true × Disarmed m')
conclude-strict_example =
    conclude-strict env (says PilotIntent.readback "D-EABC rolle") ramp goodbye no_clearance
      cleared_machine applies_here

begin_fresh_flight-outcome_example :
    let w' = begin_fresh_flight true idle_world in
    (true ≡ true
      × IsFresh w'.machine
      × w'.last_airport_id ≡ ""
      × w'.dialog ≡ idle_world.dialog
      × w'.flight ≡ idle_world.flight
      × w'.machine.active_correction_key ≡ idle_world.machine.active_correction_key
      × w'.machine.correction_timer ≡ idle_world.machine.correction_timer)
    ⊎ (true ≡ false × w' ≡ idle_world)
begin_fresh_flight-outcome_example = begin_fresh_flight-outcome true idle_world

disregard-outcome_example :
    let w' = disregard aloft FlightPhase.cruise (whole 101) idle_world in
    IsQuiet w'.machine
    × (w'.dialog ≡ Dialog.init)
    × ((true ≡ false × w'.machine.state ≡ AtcState.idle × IsReleased w'.machine)
        ⊎ (true ≡ true
            × w'.machine.state
              ≡ (if is_near_airport aloft then AtcState.pattern_entry else AtcState.en_route)
            × w'.machine.assigned_runway ≡ "25"
            × w'.machine.session_callsign ≡ "D-EABC"))
unfolding is_airborne
disregard-outcome_example = disregard-outcome aloft FlightPhase.cruise (whole 101) idle_world
