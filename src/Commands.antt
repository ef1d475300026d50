-- ===== src/Commands.antt =====
-- The calls of the module's interface that change the dialog (src/atc/atc_state_machine.hpp and
-- `update` of src/atc/flight_phase.hpp) as commands, and a session as a list of them. The
-- guarded restore of a snapshot is no command: Snapshot/Guard has it.
pub mod Stages
pub mod Histories
use xp_wellys_devfr_atc.Base.{Bool, String, List, [], ◌∷◌}
use xp_wellys_devfr_atc.Double.{Double}
use xp_wellys_devfr_atc.State.{AtcState}
use xp_wellys_devfr_atc.Intent.{PilotMessage}
use xp_wellys_devfr_atc.Context.{XplaneContext}
use xp_wellys_devfr_atc.FlightPhase.{FlightPhase}
use xp_wellys_devfr_atc.Settings.{Settings}
use xp_wellys_devfr_atc.Machine.{
  Machine, set_was_airborne, set_flight_intent_cross_country, set_flight_intent_pattern,
}
use xp_wellys_devfr_atc.World.{
  World, on_machine, init, stop, reset, begin_fresh_flight, disregard, set_state,
}
use xp_wellys_devfr_atc.Env.{Env}
use xp_wellys_devfr_atc.Flows.CrossCountry.{check_airport_change}
use xp_wellys_devfr_atc.Process.{process}
use xp_wellys_devfr_atc.AutoCorrection.{check_auto_correction}
use xp_wellys_devfr_atc.PhaseTracker.{update}

pub data Command (F : Type 0) : Type 0 where
  start : Settings F → Command F
  end_module : Command F
  sweep_all : Command F
  fresh_flight : Bool → Command F
  drop : XplaneContext F → FlightPhase → F → Command F
  force_state : AtcState → Command F
  mark_airborne : Bool → Command F
  plan_cross_country : String → Command F
  plan_pattern : Command F
  transmit : PilotMessage → XplaneContext F → F → Command F
  frame_airport : XplaneContext F → F → Command F
  frame_correction : FlightPhase → F → F → Command F
  frame_phase : XplaneContext F → F → Command F

module _ {F : Type 0} ⦃d : Double F⦄ where
  unfoldable pub execute : Env F → Command F → World F → World F
  execute env (start settings) w = init settings w
  execute env end_module w = stop w
  execute env sweep_all w = reset w
  execute env (fresh_flight on_ground) w = begin_fresh_flight on_ground w
  execute env (drop ctx phase now_secs) w = disregard ctx phase now_secs w
  execute env (force_state s) w = on_machine (set_state s) w
  execute env (mark_airborne v) w = on_machine (set_was_airborne v) w
  execute env (plan_cross_country dest) w = on_machine (set_flight_intent_cross_country dest) w
  execute env plan_pattern w = on_machine set_flight_intent_pattern w
  execute env (transmit msg ctx now_secs) w = (process env msg ctx now_secs w).0
  execute env (frame_airport ctx now_secs) w = check_airport_change ctx now_secs w
  execute env (frame_correction phase dt now_secs) w =
      on_machine (check_auto_correction env phase dt now_secs) w
  execute env (frame_phase ctx dt) w = update env ctx dt w

  -- Each command has the settings and the traffic of its own time.
  unfoldable pub session : List (Env F × Command F) → World F → World F
  unfolding execute
  session [] w = w
  session ((env, c) ∷ cs) w = session cs (execute env c w)
