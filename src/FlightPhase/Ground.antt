-- ===== src/FlightPhase/Ground.antt =====
-- The detected phase agrees with the gear.
use xp_wellys_devfr_atc.Base.{◌≡◌, Bool, true, false, not, String, Bool-cases, inl, inr, arith}
use xp_wellys_devfr_atc.Double.{Double}
use xp_wellys_devfr_atc.Context.{XplaneContext}
use xp_wellys_devfr_atc.FlightPhase.{PhaseThresholds, is_airborne, is_on_ground}
use xp_wellys_devfr_atc.FlightPhase.Detect.{detect_ground, detect_airborne, detect_raw}

module _ {F : Type 0} ⦃d : Double F⦄ where
  ground_phase :
      (th : PhaseThresholds F) (was : Bool) (ctx : XplaneContext F)
      → (is_on_ground (detect_ground th was ctx) ≡ true)
        × (is_airborne (detect_ground th was ctx) ≡ false)
  unfolding detect_ground is_on_ground is_airborne
  ground_phase th was ctx = ground arith

  airborne_phase :
      (th : PhaseThresholds F) (rwy : String) (ctx : XplaneContext F)
      → (is_on_ground (detect_airborne th rwy ctx) ≡ false)
        × (is_airborne (detect_airborne th rwy ctx) ≡ true)
  unfolding detect_airborne is_on_ground is_airborne
  airborne_phase th rwy ctx = ground arith

  -- The raw phase is a ground phase exactly if the simulator reports the aircraft on the ground, and an
  -- airborne phase exactly if it does not, for every setting of the thresholds.
  pub detect_raw-on_ground :
      (th : PhaseThresholds F) (rwy : String) (was_airborne : Bool) (ctx : XplaneContext F)
      → (is_on_ground (detect_raw th rwy was_airborne ctx) ≡ ctx.on_ground)
        × (is_airborne (detect_raw th rwy was_airborne ctx) ≡ not ctx.on_ground)
  unfolding detect_raw
  detect_raw-on_ground th rwy was_airborne ctx = elim (Bool-cases ctx.on_ground) [
    | inl e ↦ rw e (ground_phase th was_airborne ctx)
    | inr e ↦ rw e (airborne_phase th rwy ctx)
  ]
