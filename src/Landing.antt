-- ===== src/Landing.antt =====
-- The landing sequence (src/atc/landing_sequence.hpp and .cpp).
pub mod Ahead
pub mod Occupied
pub mod Order
use xp_wellys_devfr_atc.Base.{
  ℕ, zero, suc, ◌-◌, Bool, true, false, not, ◌&&◌, ◌||◌, String, Option, none, some, List, [], ◌∷◌,
  ltb, length, find, get_elem?, concat, is_empty, if◌then◌else◌,
}
use xp_wellys_devfr_atc.Double.{Double, ◌<?◌, ◌≤?◌, add, sub, mul, div, lit, whole}
use xp_wellys_devfr_atc.Geometry.{distance_nm, bearing_deg, is_on_runway_centerline}
use xp_wellys_devfr_atc.Traffic.{
  TrafficPhase, TrafficTarget, TrafficContext, final, on_ground, takeoff, landed, traffic_phase_eq,
}

pub record ActiveRunway (F : Type 0) : Type 0 where
  pub threshold_lat : F
  pub threshold_lon : F
  pub heading_deg : F
  pub length_m : F
  pub designator : String

pub record UserPosition (F : Type 0) : Type 0 where
  pub lat : F
  pub lon : F

pub record SequenceResult (F : Type 0) : Type 0 where
  pub user_position : ℕ
  pub follow_target : Option (TrafficTarget F)
  pub runway_occupied : Bool
  pub occupant : Option (TrafficTarget F)

pub record FinalEntry (F : Type 0) : Type 0 where
  pub dist_nm : F
  pub source_idx : ℕ

unfoldable pub is_ground_phase : TrafficPhase → Bool
is_ground_phase p =
    traffic_phase_eq p on_ground || traffic_phase_eq p takeoff || traffic_phase_eq p landed

module _ {F : Type 0} ⦃d : Double F⦄ where
  unfoldable pub distance_to_threshold_nm : F → F → ActiveRunway F → F
  distance_to_threshold_nm lat lon rwy = distance_nm rwy.threshold_lat rwy.threshold_lon lat lon

  -- Targets on final, with their index in the snapshot.
  unfoldable pub collect_finals : ActiveRunway F → ℕ → List (TrafficTarget F) → List (FinalEntry F)
  collect_finals rwy i [] = []
  collect_finals rwy i (t ∷ ts) =
      let rest = collect_finals rwy (suc i) ts in
      if traffic_phase_eq t.phase final
      then record { dist_nm = distance_to_threshold_nm t.lat t.lon rwy; source_idx = i } ∷ rest
      else rest

  -- The comparison of the sort: by distance, then by index.
  unfoldable pub entry_lt : FinalEntry F → FinalEntry F → Bool
  entry_lt a b =
      if not (d.eq a.dist_nm b.dist_nm)
      then a.dist_nm <? b.dist_nm
      else ltb a.source_idx b.source_idx

  -- `std::sort`; the order is total, so every sorting algorithm gives this list.
  unfoldable pub insert_entry : FinalEntry F → List (FinalEntry F) → List (FinalEntry F)
  unfolding entry_lt
  insert_entry e [] = e ∷ []
  insert_entry e (x ∷ xs) =
      let rest = insert_entry e xs in if entry_lt x e then x ∷ rest else e ∷ x ∷ xs

  unfoldable pub sort_entries : List (FinalEntry F) → List (FinalEntry F)
  unfolding insert_entry
  sort_entries [] = []
  sort_entries (x ∷ xs) = insert_entry x (sort_entries xs)

  -- The loop that stops at the first entry beyond the user.
  unfoldable pub user_index : F → List (FinalEntry F) → ℕ
  user_index user_dist [] = 0
  user_index user_dist (e ∷ es) =
      let rest = user_index user_dist es in if user_dist <? e.dist_nm then 0 else suc rest

  unfoldable pub follow_of :
      List (TrafficTarget F) → List (FinalEntry F) → ℕ → Option (TrafficTarget F)
  follow_of targets finals zero = none
  follow_of targets finals (suc i) = elim (get_elem? finals i) [
    | none ↦ none
    | some e ↦ get_elem? targets e.source_idx
  ]

  unfoldable pub occupies : ActiveRunway F → TrafficTarget F → Bool
  unfolding is_ground_phase
  occupies rwy t =
      is_ground_phase t.phase
      && is_on_runway_centerline t.lat t.lon rwy.threshold_lat rwy.threshold_lon rwy.heading_deg
          (whole 1500) (whole 30)

  unfoldable pub occupant_of : ActiveRunway F → List (TrafficTarget F) → Option (TrafficTarget F)
  unfolding occupies
  occupant_of rwy targets = find (occupies rwy) targets

  abbrev is_some : Option (TrafficTarget F) → Bool
  is_some none = false
  is_some (some t) = true

  unfoldable pub sorted_finals : TrafficContext F → ActiveRunway F → List (FinalEntry F)
  unfolding sort_entries collect_finals
  sorted_finals traffic rwy = sort_entries (collect_finals rwy 0 traffic.targets)

  unfoldable pub compute_landing_sequence :
      TrafficContext F → UserPosition F → ActiveRunway F → SequenceResult F
  unfolding sorted_finals user_index follow_of occupant_of
  compute_landing_sequence traffic user rwy =
      let finals = sorted_finals traffic rwy in
      let user_dist = distance_to_threshold_nm user.lat user.lon rwy in
      let user_idx = user_index user_dist finals in
      let occupant = occupant_of rwy traffic.targets in
      record {
        user_position = suc user_idx;
        follow_target = follow_of traffic.targets finals user_idx;
        runway_occupied = is_some occupant;
        occupant = occupant;
      }

  unfoldable pub signed_diff : F → F → F
  signed_diff a b = sub (d.fmod (add (sub a b) (whole 540)) (whole 360)) (whole 180)

  unfoldable pub leg_label : TrafficTarget F → ActiveRunway F → String → String
  unfolding signed_diff
  leg_label follow rwy pattern_direction =
      let dist_m =
        mul (distance_nm rwy.threshold_lat rwy.threshold_lon follow.lat follow.lon) (whole 1852) in
      let brg = bearing_deg rwy.threshold_lat rwy.threshold_lon follow.lat follow.lon in
      let rel_rad =
        div (mul (sub brg rwy.heading_deg) (lit 314159265358979323846 20)) (whole 180) in
      let along_m = mul dist_m (d.cos rel_rad) in
      let cross_m = mul dist_m (d.sin rel_rad) in
      let lr = if whole 0 <? cross_m then "right" else "left" in
      let side = if is_empty pattern_direction then "left" else pattern_direction in
      let diff = d.fabs (signed_diff follow.track_deg rwy.heading_deg) in
      if diff ≤? whole 20
      then "final"
      else if d.fabs (sub diff (whole 180)) ≤? whole 30
      then concat (lr ∷ " downwind" ∷ [])
      else if d.fabs (sub diff (whole 90)) ≤? whole 40
      then (if along_m ≤? whole 0
          then concat (lr ∷ " base" ∷ [])
          else concat (lr ∷ " crosswind" ∷ []))
      else concat (side ∷ " base" ∷ [])
