-- ===== src/Engine.antt =====
-- The engine (src/atc/engine.hpp and .cpp): the way of a transcript from the radio to the answer,
-- and the calls that the controller makes of its own accord. The observational log is left out.
pub mod Repair
pub mod Unclear
pub mod Poll
pub mod Transcript
pub mod Session
use xp_wellys_devfr_atc.Base.{ℕ, zero, Bool, String}
use xp_wellys_devfr_atc.Double.{Double, whole}
use xp_wellys_devfr_atc.Intent.{PilotMessage}
use xp_wellys_devfr_atc.Advisor.{AdvisoryHistory, no_advisories}
use xp_wellys_devfr_atc.World.{World}
use xp_wellys_devfr_atc.Dialog

-- The static variables of the file.
pub record Counters (F : Type 0) : Type 0 where
  pub profanity_warnings : ℕ
  pub lm_inferences : ℕ
  pub advisory_history : AdvisoryHistory F
  pub unclear_streak : ℕ
  pub last_go_around_emit_secs : F

-- The engine beside the dialog.
pub record Plugin (F : Type 0) : Type 0 where
  pub world : World F
  pub counters : Counters F

-- A parsed message with the confidence that the state machine does not read.
pub record Parsed (F : Type 0) : Type 0 where
  pub message : PilotMessage
  pub confidence : F

pub record Output (F : Type 0) : Type 0 where
  pub response_text : String
  pub parsed : Parsed F
  pub is_warning : Bool

module _ {F : Type 0} ⦃d : Double F⦄ where
  unfoldable pub reset : Plugin F → Plugin F
  unfolding no_advisories
  reset p = record p {
    world = record p.world { dialog = Dialog.init };
    counters = record {
      profanity_warnings = 0;
      lm_inferences = 0;
      advisory_history = no_advisories;
      unclear_streak = 0;
      last_go_around_emit_secs = d.neg (whole 1000000000);
    };
  }

module _ {F : Type 0} where
  unfoldable pub mark_clear : Counters F → Counters F
  mark_clear c = record c { unclear_streak = 0 }
