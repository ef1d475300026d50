-- ===== src/Snapshot.antt =====
-- The snapshot of the machine and its guarded restore (src/atc/atc_state_machine.cpp).
pub mod Guard
use xp_wellys_devfr_atc.Base.{ℕ, ◌+◌, ◌%◌, Bool, true, false, not, ◌==◌, if◌then◌else◌}
use xp_wellys_devfr_atc.Machine.{Machine, u64_mod}

module _ {F : Type 0} where
  -- A full copy of the struct, the counter included.
  unfoldable pub capture_snapshot : Machine F → Machine F
  capture_snapshot m = m

  unfoldable pub current_gen : Machine F → ℕ
  current_gen m = m.gen

  unfoldable pub restore_snapshot_if_gen : Machine F → ℕ → Machine F → Machine F × Bool
  restore_snapshot_if_gen snap expected_gen m =
      if not (m.gen == expected_gen)
      then (m, false)
      else (record snap { gen = (m.gen + 1) % u64_mod }, true)
