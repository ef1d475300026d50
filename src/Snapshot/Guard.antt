-- ===== src/Snapshot/Guard.antt =====
-- What the guarded restore of a snapshot promises.
use xp_wellys_devfr_atc.Base.{
  ℕ, ◌+◌, ◌*◌, ◌%◌, ◌<◌, ◌≡◌, ◌≢◌, ◌⊎◌, inl, inr, refl, true, false, ◌==◌, List, length, arith,
}
use xp_wellys_devfr_atc.Double.{Double}
use xp_wellys_devfr_atc.Machine.{Machine, u64_mod}
use xp_wellys_devfr_atc.Machine.Discipline.{semantics}
use xp_wellys_devfr_atc.Machine.Generation.{Evolves, generations, generations-SessionRules}
use xp_wellys_devfr_atc.World.{World}
use xp_wellys_devfr_atc.Env.{Env}
use xp_wellys_devfr_atc.Commands.{Command, session}
use xp_wellys_devfr_atc.Commands.Stages.{follows-session}
use xp_wellys_devfr_atc.Snapshot.{capture_snapshot, current_gen, restore_snapshot_if_gen}

zero_or_pos : (n : ℕ) → (n ≡ 0) ⊎ (0 < n)
zero_or_pos n = ground arith

wrapped_differs : (n : ℕ) → ((n + 1) % u64_mod == n) ≡ false
wrapped_differs n = ground arith

module _ {F : Type 0} where
  -- Fewer than 2^64 bumps do not bring an old count back.
  pub moved_on :
      {n : ℕ} (m m' : Machine F)
      → Evolves n m m'
      → n < u64_mod
      → semantics m' ≢ semantics m
      → (m'.gen == m.gen) ≡ false
  moved_on m m' p h differs = elim (zero_or_pos p.bumps) [
    | inl e ↦ absurd (differs (p.quiet e))
    | inr e ↦
        let distinct : m'.gen ≢ m.gen =
          (λ q. absurd (omega (arith, p.moved, p.bounded, h, e, q))) in
        ground arith
  ]

  -- A restore with a generation that is not current is refused and changes nothing.
  refuse :
      (snap : Machine F) (gen : ℕ) (m : Machine F)
      → (m.gen == gen) ≡ false
      → restore_snapshot_if_gen snap gen m ≡ (m, false)
  unfolding restore_snapshot_if_gen
  refuse snap gen m e = rw e refl

  pub accept :
      (snap m : Machine F)
      → restore_snapshot_if_gen snap (current_gen m) m
        ≡ (record snap { gen = (m.gen + 1) % u64_mod }, true)
  unfolding restore_snapshot_if_gen current_gen
  accept snap m = ground arith

module _ {F : Type 0} ⦃d : Double F⦄ where
  -- A snapshot taken before a session of any commands, with settings and traffic that may change from one to
  -- the next, is never restored over what the session did: if the session
  -- changed a field other than the heartbeats, and it has fewer than 2^64 / 24 commands, then the
  -- restore with the generation of the capture is refused and leaves the machine alone.
  pub restore_stale :
      (cs : List (Env F × Command F)) (w : World F)
      → 24 * length cs < u64_mod
      → semantics (session cs w).machine ≢ semantics w.machine
      → (restore_snapshot_if_gen
          (capture_snapshot w.machine)
          (current_gen w.machine)
          (session cs w).machine)
        ≡ ((session cs w).machine, false)
  unfolding current_gen generations
  restore_stale cs w h differs =
      refuse _ _ _
        (moved_on _ _ (follows-session generations generations-SessionRules cs w) h differs)

module _ {F : Type 0} where
  -- A snapshot restored while the count is that of `m` gives the captured machine back in every field
  -- but the count, the heartbeat and the timer of the corrections included, whatever `m` holds; the
  -- count is the next one after that of `m`. That uses the permission up: a second restore at the same
  -- count is refused, for every snapshot.
  pub restore_once :
      (snap second m : Machine F)
      → let m1 = (restore_snapshot_if_gen (capture_snapshot snap) (current_gen m) m).0 in
        (restore_snapshot_if_gen (capture_snapshot snap) (current_gen m) m).1 ≡ true
        × semantics m1 ≡ semantics snap
        × m1.last_now_secs ≡ snap.last_now_secs
        × m1.active_correction_key ≡ snap.active_correction_key
        × m1.correction_timer ≡ snap.correction_timer
        × m1.gen ≡ (m.gen + 1) % u64_mod
        × restore_snapshot_if_gen second (current_gen m) m1 ≡ (m1, false)
  unfolding capture_snapshot restore_snapshot_if_gen current_gen
  restore_once snap second m =
      rw (accept snap m)
        (refl, refl, refl, refl, refl, refl, refuse second m.gen _ (wrapped_differs m.gen))
