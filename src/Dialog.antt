-- ===== src/Dialog.antt =====
-- The traffic dialog beside the main flow (src/atc/traffic_dialog.hpp and .cpp): its state.
pub mod Pilot
use xp_wellys_devfr_atc.Base.{ℕ}

pub data DialogState : Type 0 where
  idle awaiting_ack : DialogState

pub record Dialog : Type 0 where
  pub state : DialogState
  pub pending_target_id : ℕ

-- `init`, `stop` and `reset`.
unfoldable pub init : Dialog
init = record { state = DialogState.idle; pending_target_id = 0 }

unfoldable pub on_advisory_emitted : ℕ → Dialog → Dialog
on_advisory_emitted target d = record {
  state = DialogState.awaiting_ack;
  pending_target_id = target;
}
