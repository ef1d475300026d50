-- ===== src/Atis.antt =====
-- The ATIS (src/atc/atis_generator.cpp): when the letter moves on, which COM hears it, and the
-- static variables of the file. The monotonic clock is an argument.
pub mod Text
pub mod Letter
use xp_wellys_devfr_atc.Base.{
  ℕ, ◌+◌, ◌-◌, ◌%◌, Bool, true, false, not, ◌&&◌, ◌||◌, String, ◌==◌, text_eq, is_empty,
  if◌then◌else◌,
}
use xp_wellys_devfr_atc.Double.{Double, ◌<?◌, ◌≤?◌, add, sub, mul, div, lit, whole}
use xp_wellys_devfr_atc.Context.{XplaneContext}
use xp_wellys_devfr_atc.Machine.{Machine}

pub record Atis (F : Type 0) : Type 0 where
  pub letter : ℕ
  pub last_runway : String
  pub last_wind_dir : F
  pub last_qnh_inhg : F
  pub last_vis_category : ℕ
  pub last_increment_time : F
  pub baseline_initialized : Bool

module _ {F : Type 0} ⦃d : Double F⦄ where
  -- The state when the program starts.
  abbrev pub at_start : Atis F
  at_start = record {
    letter = b'A';
    last_runway = "";
    last_wind_dir = whole 0;
    last_qnh_inhg = lit 2992 2;
    last_vis_category = 0;
    last_increment_time = whole 0;
    baseline_initialized = false;
  }

  -- The time of the last increment stays.
  unfoldable pub init : Atis F → Atis F
  init s = record at_start { last_increment_time = s.last_increment_time }

  unfoldable pub stop : Atis F → Atis F
  stop s = record s { letter = b'A'; last_increment_time = whole 0 }

  unfoldable pub visibility_category : F → ℕ
  visibility_category vis_m =
      if whole 10000 ≤? vis_m then 0 else if whole 5000 ≤? vis_m then 1 else 2

  -- Is the wind another one?
  unfoldable pub wind_changed : XplaneContext F → F → Bool
  wind_changed ctx last_wind_dir =
      let turned =
        d.fmod (add (sub ctx.wind_direction_deg last_wind_dir) (whole 540)) (whole 360) in
      whole 3 ≤? ctx.wind_speed_kt && whole 30 <? d.fabs (sub turned (whole 180))

  unfoldable pub has_changed : XplaneContext F → Atis F → Bool
  unfolding wind_changed visibility_category
  has_changed ctx s =
      (not (is_empty ctx.active_runway) && not (text_eq ctx.active_runway s.last_runway))
      || wind_changed ctx s.last_wind_dir
      || lit 295 4 <? d.fabs (sub ctx.qnh_inhg s.last_qnh_inhg)
      || not (visibility_category ctx.visibility_m == s.last_vis_category)

  -- The baseline of the comparison.
  unfoldable pub set_baseline : XplaneContext F → Atis F → Atis F
  unfolding visibility_category
  set_baseline ctx s = record s {
    last_runway = ctx.active_runway;
    last_wind_dir = ctx.wind_direction_deg;
    last_qnh_inhg = ctx.qnh_inhg;
    last_vis_category = visibility_category ctx.visibility_m;
  }

  unfoldable pub check_for_update : Machine F → XplaneContext F → F → Atis F → Atis F
  unfolding has_changed set_baseline
  check_for_update m ctx now s =
      if not (is_empty m.assigned_runway)
      then s
      else if not s.baseline_initialized
      then (if is_empty ctx.active_runway
          then s
          else record (set_baseline ctx s) { baseline_initialized = true })
      else if not (has_changed ctx s)
      then s
      else if sub now s.last_increment_time <? whole 300
      then s
      else record (set_baseline ctx s) {
        last_increment_time = now;
        letter = b'A' + (s.letter - b'A' + 1) % 26;
      }

  unfoldable pub atis_in_range : XplaneContext F → Bool
  atis_in_range ctx =
      let dlat = mul (sub ctx.latitude ctx.airport_lat) (whole 60) in
      let radians = div (mul ctx.latitude (lit 314159265358979323846 20)) (whole 180) in
      let dlon = mul (mul (sub ctx.longitude ctx.airport_lon) (whole 60)) (d.cos radians) in
      let dist_nm = d.sqrt (add (mul dlat dlat) (mul dlon dlon)) in
      if d.eq ctx.airport_lat (whole 0) && d.eq ctx.airport_lon (whole 0)
      then true
      else dist_nm ≤? whole 60

  unfoldable pub freq_matches_atis : F → F → Bool
  freq_matches_atis freq atis_freq = d.fabs (sub freq atis_freq) <? lit 5 3

  unfoldable pub which_com_tuned_to_atis : XplaneContext F → ℕ
  unfolding atis_in_range freq_matches_atis
  which_com_tuned_to_atis ctx =
      let com1_match = freq_matches_atis ctx.com1_freq_mhz ctx.atis_freq_mhz in
      let com2_match = freq_matches_atis ctx.com2_freq_mhz ctx.atis_freq_mhz in
      if ctx.atis_freq_mhz <? whole 100
      then 0
      else if not (atis_in_range ctx)
      then 0
      else if not com1_match && not com2_match
      then 0
      else if com1_match && com2_match
      then (if ctx.active_com == 2 then 2 else 1)
      else if com1_match
      then 1
      else 2

  unfoldable pub is_tuned_to_atis : XplaneContext F → Bool
  unfolding which_com_tuned_to_atis
  is_tuned_to_atis ctx = not (which_com_tuned_to_atis ctx == 0)
