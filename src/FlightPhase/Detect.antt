-- ===== src/FlightPhase/Detect.antt =====
-- The detection of the phase from the simulator (`detect_raw` of src/atc/flight_phase.cpp).
use xp_wellys_devfr_atc.Base.{Bool, ◌&&◌, String, List, [], ◌∷◌, text_eq, if◌then◌else◌}
use xp_wellys_devfr_atc.Double.{Double, ◌<?◌, ◌≤?◌, add, sub, mul, div, lit, whole}
use xp_wellys_devfr_atc.Context.{XplaneContext, RunwayInfo}
use xp_wellys_devfr_atc.FlightPhase.{
  FlightPhase, PhaseThresholds, parked, taxi, takeoff_roll, climb, pattern, final_approach,
  landing_roll, cruise,
}

module _ {F : Type 0} ⦃d : Double F⦄ where
  abbrev rad : F
  rad = div (lit 314159265358979323846 20) (whole 180)

  unfoldable pub haversine_distance_nm : F → F → F → F → F
  haversine_distance_nm lat1 lon1 lat2 lon2 =
      let half_lat = d.sin (div (mul (sub lat2 lat1) rad) (whole 2)) in
      let half_lon = d.sin (div (mul (sub lon2 lon1) rad) (whole 2)) in
      let a =
        add (mul half_lat half_lat)
          (mul (mul (mul (d.cos (mul lat1 rad)) (d.cos (mul lat2 rad))) half_lon) half_lon) in
      let m = mul (mul (whole 6371000) (whole 2)) (d.atan2 (d.sqrt a) (d.sqrt (sub (whole 1) a))) in
      div m (whole 1852)

  -- The heading of the runway in use; -1 if no runway end has its number.
  unfoldable pub runway_heading : String → List (RunwayInfo F) → F
  runway_heading rwy_num [] = d.neg (whole 1)
  runway_heading rwy_num (rwy ∷ rwys) =
      let rest = runway_heading rwy_num rwys in
      if text_eq rwy.end1.number rwy_num
      then rwy.end1.heading_deg
      else if text_eq rwy.end2.number rwy_num
      then rwy.end2.heading_deg
      else rest

  unfoldable pub angle_diff : F → F → F
  angle_diff a b = d.fabs (sub (d.fmod (add (sub a b) (whole 540)) (whole 360)) (whole 180))

  unfoldable pub detect_ground : PhaseThresholds F → Bool → XplaneContext F → FlightPhase
  detect_ground th was_airborne ctx =
      if th.roll_min_gs_kt ≤? ctx.groundspeed_kts
      then (if was_airborne then landing_roll else takeoff_roll)
      else if th.taxi_min_gs_kt ≤? ctx.groundspeed_kts
      then taxi
      else parked

  -- `rwy` is `atc_state_machine::effective_runway(ctx)`.
  unfoldable pub detect_airborne : PhaseThresholds F → String → XplaneContext F → FlightPhase
  unfolding haversine_distance_nm runway_heading angle_diff
  detect_airborne th rwy ctx =
      let dist = haversine_distance_nm ctx.latitude ctx.longitude ctx.airport_lat ctx.airport_lon in
      let rwy_hdg = runway_heading rwy ctx.runways in
      if dist <? th.near_airport_nm && ctx.height_agl_ft <? th.pattern_max_agl_ft
      then (if whole 0 ≤? rwy_hdg
            && ctx.vertical_speed_fpm <? th.final_descent_rate_fpm
            && angle_diff ctx.heading_true rwy_hdg <? th.runway_aligned_deg
          then final_approach
          else pattern)
      else if th.climb_min_vs_fpm <? ctx.vertical_speed_fpm
      then climb
      else cruise

  unfoldable pub detect_raw : PhaseThresholds F → String → Bool → XplaneContext F → FlightPhase
  unfolding detect_ground detect_airborne
  detect_raw th rwy was_airborne ctx =
      if ctx.on_ground then detect_ground th was_airborne ctx else detect_airborne th rwy ctx
