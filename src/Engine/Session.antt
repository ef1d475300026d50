-- ===== src/Engine/Session.antt =====
-- Sessions of the engine: the frames' polls, transcripts, the answers of the language model in any
-- order, and the other calls that change the dialog, with a log of the controller's own calls.
pub mod Clocks
pub mod Spacing
use xp_wellys_devfr_atc.Base.{Bool, String, Option, none, some, List, [], ◌∷◌}
use xp_wellys_devfr_atc.Double.{Double}
use xp_wellys_devfr_atc.Context.{XplaneContext}
use xp_wellys_devfr_atc.World.{World}
use xp_wellys_devfr_atc.Env.{Env}
use xp_wellys_devfr_atc.Commands.{Command, execute}
use xp_wellys_devfr_atc.Advisor.{TrafficAdvisory}
use xp_wellys_devfr_atc.Engine.{Plugin, Parsed}
use xp_wellys_devfr_atc.Engine.Poll.{poll_go_around, poll_traffic_advisory}
use xp_wellys_devfr_atc.Engine.Transcript.{
  Input, Pending, ClassifyResult, process_transcript, on_classified,
}

pub data Event (F : Type 0) : Type 0 where
  advise : Env F → XplaneContext F → F → Event F
  watch : Env F → XplaneContext F → F → Event F
  hear : Env F → Bool → Input F → Event F
  settle : Env F → Pending F → ClassifyResult → Event F
  elsewhere : Env F → Command F → Event F

-- The controller's own calls, newest first.
pub record Calls (F : Type 0) : Type 0 where
  pub advisories : List (F × TrafficAdvisory)
  pub go_arounds : List F

module _ {F : Type 0} where
  abbrev pub log_advisory :
      F
      → Option (TrafficAdvisory × String)
      → List (F × TrafficAdvisory)
      → List (F × TrafficAdvisory)
  log_advisory now_secs none log = log
  log_advisory now_secs (some (adv, _)) log = (now_secs, adv) ∷ log

  abbrev pub log_time : F → Option String → List F → List F
  log_time now_secs none log = log
  log_time now_secs (some _) log = now_secs ∷ log

module _ {F : Type 0} ⦃d : Double F⦄ (parse : World F → String → XplaneContext F → Parsed F) where
  unfoldable pub handle : Event F → Plugin F → Calls F → Plugin F × Calls F
  handle (advise env ctx now_secs) p calls =
      let (p', given) = poll_traffic_advisory env ctx now_secs p in
      (p', record calls { advisories = log_advisory now_secs given calls.advisories })
  handle (watch env ctx now_secs) p calls =
      let (p', text) = poll_go_around env ctx now_secs p in
      (p', record calls { go_arounds = log_time now_secs text calls.go_arounds })
  handle (hear env lm_ready input) p calls =
      ((process_transcript env parse lm_ready input p).0, calls)
  handle (settle env q result) p calls = ((on_classified env q result p).0, calls)
  handle (elsewhere env c) p calls = (record p { world = execute env c p.world }, calls)

  unfoldable pub run : List (Event F) → Plugin F → Calls F → Plugin F × Calls F
  unfolding handle
  run [] p calls = (p, calls)
  run (e ∷ es) p calls = let (p', calls') = handle e p calls in run es p' calls'
