-- ===== src/Traffic/Classify/Landed.antt =====
-- When another aircraft counts as landed.
use xp_wellys_devfr_atc.Base.{◌≡◌, refl, false, ◌&&◌, Option, none, some, arith}
use xp_wellys_devfr_atc.Double.{Double, ◌<?◌, whole}
use xp_wellys_devfr_atc.Traffic.{TrafficPhase, TrafficTarget, landed, traffic_phase_eq}
use xp_wellys_devfr_atc.Traffic.Classify.{
  AirportRunwayHints, was_airborne, classify_airborne_near_airport, refine, classify,
}

module _ {F : Type 0} ⦃d : Double F⦄ where
  refine-landed :
      (t : TrafficTarget F) (hints : Option (AirportRunwayHints F))
      → traffic_phase_eq (refine t hints) landed ≡ false
  unfolding refine classify_airborne_near_airport
  refine-landed t none = refl
  refine-landed t (some hints) = ground arith

  -- An aircraft counts as landed exactly if it was in a phase of flight in the snapshot before and is now
  -- below 50 feet and slower than 80 knots. So no two snapshots in a row count it as landed.
  pub classify-landed :
      (t : TrafficTarget F) (prev : TrafficPhase) (hints : Option (AirportRunwayHints F))
      → (traffic_phase_eq (classify t prev hints) landed
          ≡ (was_airborne prev && t.alt_agl_ft <? whole 50 && t.groundspeed_kts <? whole 80))
        × (traffic_phase_eq (classify t landed hints) landed ≡ false)
  unfolding classify was_airborne
  classify-landed t prev hints =
      let r = refine-landed t hints in (ground (arith, r), ground (arith, r))
