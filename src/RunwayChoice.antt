-- ===== src/RunwayChoice.antt =====
-- The runway in use and the airport of a frequency (src/core/xplane_context_runtime.cpp).
pub mod Calm
pub mod Nearby
use Prim.Native.String
use text.Mathlib.Text.{is_lt}
use xp_wellys_devfr_atc.Base.{
  ℕ, ◌-◌, Bool, true, false, not, ◌&&◌, ◌||◌, String, Option, none, some, List, [], ◌∷◌, ltb, leb,
  ◌==◌, find, lookup, bool_eq, text_eq, if◌then◌else◌,
}
use xp_wellys_devfr_atc.Double.{Double, ◌<?◌, add, sub, mul, div, lit, whole}
use xp_wellys_devfr_atc.Geometry.{deg2rad, earth_radius_m, meters_per_nm}
use xp_wellys_devfr_atc.Context.{RunwayInfo, RunwayEnd}
use xp_wellys_devfr_atc.Radio.{FrequencyType, AirportFrequencies, AirportFrequency, frequency_eq}

unfoldable pub is_paved : ℕ → Bool
is_paved surface_code = surface_code == 1 || surface_code == 2

-- `a < b` on `std::string`.
abbrev pub is_before : String → String → Bool
is_before a b = is_lt (String.compare a b)

-- The end that is best so far.
pub record Best (F : Type 0) : Type 0 where
  pub end : String
  pub headwind : F
  pub length : F
  pub paved : Bool

-- The type of the frequency that is one kilohertz away at most.
unfoldable pub matched_type : ℕ → AirportFrequencies → FrequencyType
matched_type freq_khz freqs =
    let is_near = λ (f : AirportFrequency).
      leb (if ltb f.freq_khz freq_khz then freq_khz - f.freq_khz else f.freq_khz - freq_khz) 1 in
    elim (find is_near freqs) [ none ↦ FrequencyType.unknown | some f ↦ f.type ]

module _ {F : Type 0} ⦃d : Double F⦄ where
  -- The longest, paved before unpaved: over (best, runways).
  unfoldable pub longest_from : RunwayInfo F → List (RunwayInfo F) → RunwayInfo F
  unfolding is_paved
  longest_from best [] = best
  longest_from best (rwy ∷ runways) =
      let paved = is_paved rwy.surface_code in
      let best_paved = is_paved best.surface_code in
      let is_better =
        (paved && not best_paved) || (bool_eq paved best_paved && best.length_m <? rwy.length_m) in
      longest_from (if is_better then rwy else best) runways

  -- `std::make_tuple(paved, headwind, length) > …`.
  unfoldable pub beats : Bool → F → F → Best F → Bool
  beats paved headwind length best =
      if not (bool_eq paved best.paved)
      then paved
      else if best.headwind <? headwind
      then true
      else if headwind <? best.headwind
      then false
      else best.length <? length

  unfoldable pub headwind_of : F → F → RunwayEnd F → F
  headwind_of wind_dir wind_speed end =
      let diff =
        sub (d.fmod (add (sub wind_dir end.heading_deg) (whole 540)) (whole 360)) (whole 180) in
      mul wind_speed (d.cos (mul diff deg2rad))

  unfoldable pub consider : F → F → RunwayInfo F → RunwayEnd F → Best F → Best F
  unfolding beats headwind_of is_paved
  consider wind_dir wind_speed rwy end best =
      let paved = is_paved rwy.surface_code in
      let headwind = headwind_of wind_dir wind_speed end in
      let clearly_better = add best.headwind (whole 1) <? headwind in
      let within_margin = sub best.headwind (whole 1) <? headwind in
      if clearly_better || (within_margin && beats paved headwind rwy.length_m best)
      then record { end = end.number; headwind = headwind; length = rwy.length_m; paved = paved }
      else best

  -- Both ends of each runway.
  unfoldable pub best_from : F → F → Best F → List (RunwayInfo F) → Best F
  unfolding consider
  best_from wind_dir wind_speed best [] = best
  best_from wind_dir wind_speed best (rwy ∷ runways) =
      best_from wind_dir wind_speed
        (consider wind_dir wind_speed rwy rwy.end2 (consider wind_dir wind_speed rwy rwy.end1 best))
        runways

  abbrev pub no_end : Best F
  no_end = record { end = ""; headwind = d.neg (whole 9999); length = whole 0; paved = false }

  unfoldable pub select_active_runway : List (RunwayInfo F) → F → F → String
  unfolding longest_from best_from
  select_active_runway [] wind_dir wind_speed = ""
  select_active_runway (rwy ∷ runways) wind_dir wind_speed =
      let best = longest_from rwy runways in
      if wind_speed <? whole 3
      then (if is_before best.end1.number best.end2.number
          then best.end1.number
          else best.end2.number)
      else (best_from wind_dir wind_speed no_end (rwy ∷ runways)).end

  unfoldable pub haversine_distance : F → F → F → F → F
  haversine_distance lat1 lon1 lat2 lon2 =
      let half_lat = d.sin (div (mul (sub lat2 lat1) deg2rad) (whole 2)) in
      let half_lon = d.sin (div (mul (sub lon2 lon1) deg2rad) (whole 2)) in
      let a =
        add (mul half_lat half_lat) (
          mul (mul (mul (d.cos (mul lat1 deg2rad)) (d.cos (mul lat2 deg2rad))) half_lon)
            half_lon) in
      mul (mul earth_radius_m (whole 2)) (d.atan2 (d.sqrt a) (d.sqrt (sub (whole 1) a)))

  -- An airport with the frequency, within its range: the distance in nautical miles.
  unfoldable pub matched_distance :
      List (String × (F × F)) → String → ℕ → F → F → String → AirportFrequencies → Option F
  unfolding matched_type haversine_distance
  matched_distance positions skip_id freq_khz ac_lat ac_lon id freqs = elim (lookup id positions) [
    | none ↦ none
    | some (apt_lat, apt_lon) ↦
        let cos_lat = d.cos (mul ac_lat deg2rad) in
        let lon_window = if lit 1 2 <? cos_lat then div (whole 1) cos_lat else whole 1 in
        let matched = matched_type freq_khz freqs in
        let dist_nm = div (haversine_distance ac_lat ac_lon apt_lat apt_lon) meters_per_nm in
        let range_limit = if frequency_eq matched FrequencyType.atis then whole 40 else whole 20 in
        if text_eq id skip_id
        then none
        else if whole 1 <? d.fabs (sub apt_lat ac_lat)
        then none
        else if lon_window <? d.fabs (sub apt_lon ac_lon)
        then none
        else if frequency_eq matched FrequencyType.unknown
        then none
        else if range_limit <? dist_nm
        then none
        else some dist_nm
  ]

  -- The nearer of the best so far and a new one.
  abbrev nearer : String × F → String → Option F → String × F
  nearer best id none = best
  nearer best id (some dist) = if dist <? best.1 then (id, dist) else best

  -- The loop over (best, airports).
  unfoldable pub match_from :
      List (String × (F × F))
      → String
      → ℕ
      → F
      → F
      → String × F
      → List (String × AirportFrequencies)
      → String × F
  unfolding matched_distance
  match_from positions skip_id freq_khz ac_lat ac_lon best [] = best
  match_from positions skip_id freq_khz ac_lat ac_lon best ((id, freqs) ∷ airports) =
      match_from positions skip_id freq_khz ac_lat ac_lon
        (nearer best id (matched_distance positions skip_id freq_khz ac_lat ac_lon id freqs))
        airports

  unfoldable pub find_freq_match :
      List (String × AirportFrequencies) → List (String × (F × F)) → String → ℕ → F → F → String
  unfolding match_from
  find_freq_match airports positions skip_id freq_khz ac_lat ac_lon =
      if freq_khz == 0
      then ""
      else (match_from positions skip_id freq_khz ac_lat ac_lon ("", whole 1000000000) airports).0
