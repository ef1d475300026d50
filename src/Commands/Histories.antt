-- ===== src/Commands/Histories.antt =====
-- The ring of past states over whole sessions.
use xp_wellys_devfr_atc.Base.{List}
use xp_wellys_devfr_atc.Double.{Double}
use xp_wellys_devfr_atc.Machine.History.{IsTraced, histories, histories-SessionRules}
use xp_wellys_devfr_atc.World.{World}
use xp_wellys_devfr_atc.Env.{Env}
use xp_wellys_devfr_atc.Commands.{Command, session}
use xp_wellys_devfr_atc.Commands.Stages.{follows-session}

module _ {F : Type 0} ⦃d : Double F⦄ where
  -- Every session of commands, with settings and traffic that may change from one to the next, keeps the ring of past states in order: if it has at most eight entries
  -- and no entry names the state that came right after it (the current state after the last one),
  -- the same holds after the session.
  pub session-IsTraced :
      (cs : List (Env F × Command F)) (w : World F)
      → IsTraced w.machine
      → IsTraced (session cs w).machine
  unfolding histories
  session-IsTraced cs w h = follows-session histories histories-SessionRules cs w h
