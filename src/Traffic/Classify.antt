-- ===== src/Traffic/Classify.antt =====
-- The phase of another aircraft (src/data/traffic_phase_classifier.cpp).
pub mod Landed
use xp_wellys_devfr_atc.Base.{Bool, true, false, ◌&&◌, Option, none, some, if◌then◌else◌}
use xp_wellys_devfr_atc.Double.{Double, ◌<?◌, ◌≤?◌, add, sub, whole}
use xp_wellys_devfr_atc.Geometry.{distance_nm, runway_axis_offsets}
use xp_wellys_devfr_atc.Traffic.{
  TrafficPhase, TrafficTarget, unknown, on_ground, taxi, takeoff, climb, cruise, descend, final,
  pattern, landed,
}

pub record AirportRunwayHints (F : Type 0) : Type 0 where
  pub airport_lat : F
  pub airport_lon : F
  pub threshold_lat : F
  pub threshold_lon : F
  pub runway_heading_deg : F

unfoldable pub was_airborne : TrafficPhase → Bool
was_airborne climb = true
was_airborne cruise = true
was_airborne descend = true
was_airborne final = true
was_airborne pattern = true
was_airborne _ = false

module _ {F : Type 0} ⦃d : Double F⦄ where
  unfoldable pub signed_diff : F → F → F
  signed_diff a b = sub (d.fmod (add (sub a b) (whole 540)) (whole 360)) (whole 180)

  unfoldable pub near_heading : F → F → F → Bool
  unfolding signed_diff
  near_heading track ref tolerance = d.fabs (signed_diff track ref) ≤? tolerance

  unfoldable pub near_opposite : F → F → F → Bool
  unfolding signed_diff
  near_opposite track ref tolerance =
      d.fabs (sub (d.fabs (signed_diff track ref)) (whole 180)) ≤? tolerance

  unfoldable pub near_perpendicular : F → F → F → Bool
  unfolding signed_diff
  near_perpendicular track ref tolerance =
      d.fabs (sub (d.fabs (signed_diff track ref)) (whole 90)) ≤? tolerance

  unfoldable pub classify_airborne_near_airport :
      TrafficTarget F → AirportRunwayHints F → TrafficPhase
  classify_airborne_near_airport t hints =
      let offsets =
        runway_axis_offsets t.lat t.lon hints.threshold_lat hints.threshold_lon
          hints.runway_heading_deg in
      let dist_thresh = distance_nm hints.threshold_lat hints.threshold_lon t.lat t.lon in
      let dist_airport = distance_nm hints.airport_lat hints.airport_lon t.lat t.lon in
      if near_heading t.track_deg hints.runway_heading_deg (whole 10)
        && t.vertical_speed_fpm <? d.neg (whole 200)
        && dist_thresh ≤? whole 5
        && offsets.along_m ≤? whole 0
      then final
      else if whole 5 <? dist_airport
      then unknown
      else if near_opposite t.track_deg hints.runway_heading_deg (whole 30)
      then pattern
      else if near_perpendicular t.track_deg hints.runway_heading_deg (whole 30)
      then pattern
      else unknown

  -- The refinement near an airport; outside of the envelope the phase stays unknown.
  unfoldable pub refine : TrafficTarget F → Option (AirportRunwayHints F) → TrafficPhase
  refine target none = unknown
  refine target (some hints) =
      if target.alt_agl_ft <? whole 3000
        && distance_nm hints.airport_lat hints.airport_lon target.lat target.lon ≤? whole 8
      then classify_airborne_near_airport target hints
      else unknown

  unfoldable pub classify :
      TrafficTarget F → TrafficPhase → Option (AirportRunwayHints F) → TrafficPhase
  unfolding was_airborne
  classify target prev_phase hints =
      let agl = target.alt_agl_ft in
      let gs = target.groundspeed_kts in
      let vs = target.vertical_speed_fpm in
      if was_airborne prev_phase && agl <? whole 50 && gs <? whole 80
      then landed
      else if agl <? whole 50 && gs <? whole 5
      then on_ground
      else if agl <? whole 50 && whole 5 ≤? gs && gs <? whole 40
      then taxi
      else if agl <? whole 200 && whole 40 ≤? gs && whole 200 <? vs
      then takeoff
      else refine target hints
