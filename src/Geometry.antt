-- ===== src/Geometry.antt =====
-- The geometry of traffic (src/data/traffic_geometry.cpp), over the operations of `Double`.
use xp_wellys_devfr_atc.Base.{
  ℕ, zero, suc, Bool, true, false, not, ◌&&◌, ◌||◌, String, [], ◌∷◌, concat, if◌then◌else◌,
}
use xp_wellys_devfr_atc.Double.{Double, ◌<?◌, ◌≤?◌, add, sub, mul, div, lit, whole}

pub record Position (F : Type 0) : Type 0 where
  pub lat : F
  pub lon : F

pub record AxisOffsets (F : Type 0) : Type 0 where
  pub along_m : F
  pub lateral_m : F

-- `for (int i = 0; i <= kSamples; ++i)`, with the rounds that are left.
unfoldable pub any_sample : (ℕ → Bool) → ℕ → ℕ → Bool
any_sample hit zero i = false
any_sample hit (suc rounds) i = hit i || any_sample hit rounds (suc i)

module _ {F : Type 0} ⦃d : Double F⦄ where
  -- M_PI / 180.0
  abbrev pub deg2rad : F
  deg2rad = div (lit 314159265358979323846 20) (whole 180)

  abbrev pub earth_radius_m : F
  earth_radius_m = whole 6371000

  abbrev pub meters_per_nm : F
  meters_per_nm = whole 1852

  unfoldable pub round_to_100 : F → F
  round_to_100 v = mul (d.round (div v (whole 100))) (whole 100)

  unfoldable pub bearing_deg : F → F → F → F → F
  bearing_deg lat1 lon1 lat2 lon2 =
      let lat1r = mul lat1 deg2rad in
      let lat2r = mul lat2 deg2rad in
      let dlon = mul (sub lon2 lon1) deg2rad in
      let y = mul (d.sin dlon) (d.cos lat2r) in
      let x =
        sub (mul (d.cos lat1r) (d.sin lat2r))
          (mul (mul (d.sin lat1r) (d.cos lat2r)) (d.cos dlon)) in
      let bearing = div (d.atan2 y x) deg2rad in d.fmod (add bearing (whole 360)) (whole 360)

  unfoldable pub distance_nm : F → F → F → F → F
  distance_nm lat1 lon1 lat2 lon2 =
      let dlat = mul (sub lat2 lat1) deg2rad in
      let dlon = mul (sub lon2 lon1) deg2rad in
      let half_lat = d.sin (div dlat (whole 2)) in
      let half_lon = d.sin (div dlon (whole 2)) in
      let a =
        add (mul half_lat half_lat) (
          mul (mul (mul (d.cos (mul lat1 deg2rad)) (d.cos (mul lat2 deg2rad))) half_lon)
            half_lon) in
      let dist_m =
        mul (mul earth_radius_m (whole 2)) (d.atan2 (d.sqrt a) (d.sqrt (sub (whole 1) a))) in
      div dist_m meters_per_nm

  unfoldable pub clock_position : F → F → F
  clock_position user_heading target_bearing =
      let rel = d.fmod (add (sub target_bearing user_heading) (whole 720)) (whole 360) in
      let hours = d.round (div rel (whole 30)) in
      if hours ≤? whole 0 || whole 12 ≤? hours then whole 12 else hours

  unfoldable pub classify_relative_track : F → F → F → String
  classify_relative_track user_track target_track clock_pos =
      let diff = d.fmod (add (sub target_track user_track) (whole 720)) (whole 360) in
      if whole 150 ≤? diff && diff ≤? whole 210
      then "opposite direction"
      else if diff ≤? whole 30 || whole 330 ≤? diff
      then "same direction"
      else if whole 60 ≤? diff && diff ≤? whole 120 && whole 6 <? clock_pos && clock_pos <? whole 12
      then "crossing left to right"
      else if whole 240 ≤? diff && diff ≤? whole 300 && whole 0 <? clock_pos && clock_pos <? whole 6
      then "crossing right to left"
      else "converging"

  unfoldable pub offset_position : F → F → F → F → Position F
  offset_position lat lon track distance =
      let lat_rad = mul lat deg2rad in
      let track_rad = mul track deg2rad in
      let dlat_m = mul distance (d.cos track_rad) in
      let dlon_m = mul distance (d.sin track_rad) in
      record {
        lat = add lat (div (div dlat_m earth_radius_m) deg2rad);
        lon = add lon (div (div dlon_m (mul earth_radius_m (d.cos lat_rad))) deg2rad);
      }

  unfoldable pub angle_diff_deg : F → F → F
  angle_diff_deg a b = sub (d.fmod (add (sub a b) (whole 540)) (whole 360)) (whole 180)

  -- One sample of the loop: is the projected position inside the cone?
  unfoldable pub sample_in_cone : F → F → F → F → F → F → F → F → F → ℕ → Bool
  unfolding offset_position angle_diff_deg distance_nm bearing_deg
  sample_in_cone user_lat user_lon heading half_deg dist_limit lat lon track total_m i =
      let frac = div (whole i) (whole 10) in
      let moved = offset_position lat lon track (mul total_m frac) in
      let sample_lat = if whole 0 <? total_m then moved.lat else lat in
      let sample_lon = if whole 0 <? total_m then moved.lon else lon in
      let dist_m = mul (distance_nm user_lat user_lon sample_lat sample_lon) meters_per_nm in
      let bearing = bearing_deg user_lat user_lon sample_lat sample_lon in
      not (dist_limit <? dist_m) && d.fabs (angle_diff_deg bearing heading) ≤? half_deg

  unfoldable pub path_intersects_cone : F → F → F → F → F → F → F → F → F → F → Bool
  unfolding any_sample sample_in_cone
  path_intersects_cone user_lat user_lon heading half_deg dist_limit lat lon track speed lookahead =
      let total_m = mul (mul speed (lit 514444 6)) lookahead in
      any_sample
        (sample_in_cone user_lat user_lon heading half_deg dist_limit lat lon track total_m) 11 0

  unfoldable pub runway_axis_offsets : F → F → F → F → F → AxisOffsets F
  unfolding distance_nm bearing_deg
  runway_axis_offsets target_lat target_lon threshold_lat threshold_lon heading =
      let dist_m =
        mul (distance_nm threshold_lat threshold_lon target_lat target_lon) meters_per_nm in
      let brg = bearing_deg threshold_lat threshold_lon target_lat target_lon in
      let delta = mul (sub brg heading) deg2rad in
      if dist_m ≤? whole 0 then record { along_m = whole 0; lateral_m = whole 0 } else record {
        along_m = mul dist_m (d.cos delta);
        lateral_m = d.fabs (mul dist_m (d.sin delta));
      }

  unfoldable pub is_on_runway_centerline : F → F → F → F → F → F → F → Bool
  unfolding runway_axis_offsets
  is_on_runway_centerline lat lon threshold_lat threshold_lon heading length_m max_lateral_m =
      let o = runway_axis_offsets lat lon threshold_lat threshold_lon heading in
      if max_lateral_m <? o.lateral_m
      then false
      else if o.along_m <? whole 0 || length_m <? o.along_m
      then false
      else true

  unfoldable pub format_altitude_info : F → F → Bool → String
  unfolding round_to_100
  format_altitude_info target_alt user_alt has_mode_c =
      let diff = sub target_alt user_alt in
      if has_mode_c
      then concat ("indicating " ∷ d.print_int (round_to_100 target_alt) ∷ " feet" ∷ [])
      else if d.fabs diff <? whole 2000
      then concat (
          d.print_int (round_to_100 (d.fabs diff))
          ∷ " feet "
          ∷ (if whole 0 ≤? diff then "above" else "below")
          ∷ [])
      else "altitude unknown"
