-- ===== src/RunwayChoice/Nearby.antt =====
-- The airports that the pilot may choose (`find_nearby_airports` of
-- src/core/xplane_context_runtime.cpp). The caches are a value.
use xp_wellys_devfr_atc.Base.{
  ℕ, zero, suc, ◌≤◌, ◌≡◌, inl, inr, refl, Bool, true, false, not, ◌||◌, String, Option, none, some,
  List, [], ◌∷◌, ◌==◌, length, lookup, or_empty, All, Bool-cases, if◌then◌else◌, arith,
}
use xp_wellys_devfr_atc.Base.Scan.{take}
use xp_wellys_devfr_atc.Double.{Double, ◌<?◌, sub, mul, div, lit, whole}
use xp_wellys_devfr_atc.Geometry.{deg2rad, meters_per_nm}
use xp_wellys_devfr_atc.Radio.{FrequencyType, AirportFrequencies, has, has_contactable_atc}
use xp_wellys_devfr_atc.RunwayChoice.{haversine_distance}

pub record NearbyAirport (F : Type 0) : Type 0 where
  pub icao : String
  pub name : String
  pub distance_nm : F
  pub has_atis : Bool
  pub has_ground : Bool
  pub has_tower : Bool
  pub has_afis : Bool
  pub has_unicom : Bool

-- The static variables that the search reads, and the position of the aircraft.
pub record Caches (F : Type 0) : Type 0 where
  pub towered_cache_ready : Bool
  pub pos_cache : List (String × (F × F))
  pub freq_cache : List (String × AirportFrequencies)
  pub name_cache : List (String × String)
  pub ac_lat : F
  pub ac_lon : F

module _ {F : Type 0} ⦃d : Double F⦄ where
  unfoldable nearby_of : Caches F → String → F → AirportFrequencies → NearbyAirport F
  unfolding has
  nearby_of caches icao dist_m freqs = record {
    icao = icao;
    name = or_empty (lookup icao caches.name_cache);
    distance_nm = div dist_m meters_per_nm;
    has_atis = has freqs FrequencyType.atis;
    has_ground = has freqs FrequencyType.ground;
    has_tower = has freqs FrequencyType.tower;
    has_afis = has freqs FrequencyType.info || has freqs FrequencyType.radio;
    has_unicom = has freqs FrequencyType.unicom || has freqs FrequencyType.ctaf;
  }

  -- An airport with its frequencies, if its field can be called.
  unfoldable contactable :
      Caches F → String → F → Option AirportFrequencies → Option (NearbyAirport F)
  unfolding nearby_of
  contactable caches icao dist_m none = none
  contactable caches icao dist_m (some freqs) =
      if has_contactable_atc freqs then some (nearby_of caches icao dist_m freqs) else none

  -- Is the airport in the window and within the range?
  unfoldable in_range : Caches F → F → F → F → Bool
  unfolding haversine_distance
  in_range caches max_nm apt_lat apt_lon =
      let cos_lat = d.cos (mul caches.ac_lat deg2rad) in
      let lat_window_deg = div max_nm (whole 60) in
      let lon_window_deg = if lit 1 2 <? cos_lat then div lat_window_deg cos_lat else whole 180 in
      if lat_window_deg <? d.fabs (sub apt_lat caches.ac_lat)
      then false
      else if lon_window_deg <? d.fabs (sub apt_lon caches.ac_lon)
      then false
      else not (
          mul max_nm meters_per_nm
          <? haversine_distance caches.ac_lat caches.ac_lon apt_lat apt_lon)

  abbrev with_next : Option (NearbyAirport F) → List (NearbyAirport F) → List (NearbyAirport F)
  with_next none rest = rest
  with_next (some na) rest = na ∷ rest

  -- The loop over the positions.
  unfoldable collect_nearby : Caches F → F → List (String × (F × F)) → List (NearbyAirport F)
  unfolding in_range contactable
  collect_nearby caches max_nm [] = []
  collect_nearby caches max_nm ((icao, (apt_lat, apt_lon)) ∷ positions) =
      let rest = collect_nearby caches max_nm positions in
      let dist_m = haversine_distance caches.ac_lat caches.ac_lon apt_lat apt_lon in
      if in_range caches max_nm apt_lat apt_lon
      then with_next (contactable caches icao dist_m (lookup icao caches.freq_cache)) rest
      else rest

  -- `std::sort`; where two are equally far, this keeps their order.
  unfoldable insert_nearby : NearbyAirport F → List (NearbyAirport F) → List (NearbyAirport F)
  insert_nearby a [] = a ∷ []
  insert_nearby a (b ∷ bs) =
      let rest = insert_nearby a bs in
      if b.distance_nm <? a.distance_nm then b ∷ rest else a ∷ b ∷ bs

  unfoldable sort_nearby : List (NearbyAirport F) → List (NearbyAirport F)
  unfolding insert_nearby
  sort_nearby [] = []
  sort_nearby (a ∷ airports) = insert_nearby a (sort_nearby airports)

  unfoldable pub find_nearby_airports : Caches F → F → ℕ → List (NearbyAirport F)
  unfolding collect_nearby sort_nearby
  find_nearby_airports caches max_nm max_count =
      if not caches.towered_cache_ready || max_count == 0
      then []
      else take max_count (sort_nearby (collect_nearby caches max_nm caches.pos_cache))

  -- The airport can be called on one of its frequencies in the cache.
  abbrev pub IsContactable : Caches F → NearbyAirport F → Type 0
  IsContactable caches a =
      (freqs : AirportFrequencies) × (lookup a.icao caches.freq_cache ≡ some freqs)
      × (has_contactable_atc freqs ≡ true)

  contactable-cases :
      (caches : Caches F) (icao : String) (dist_m : F) (rest : List (NearbyAirport F))
      (freqs : Option AirportFrequencies)
      → lookup icao caches.freq_cache ≡ freqs
      → All (IsContactable caches) rest
      → All (IsContactable caches) (with_next (contactable caches icao dist_m freqs) rest)
  unfolding contactable nearby_of
  contactable-cases caches icao dist_m rest none e h = h
  contactable-cases caches icao dist_m rest (some freqs) e h =
      elim (Bool-cases (has_contactable_atc freqs)) [
        | inl j ↦ rw j ((freqs, e, j), h)
        | inr j ↦ rw j h
      ]

  collect_nearby-IsContactable :
      (caches : Caches F) (max_nm : F) (positions : List (String × (F × F)))
      → All (IsContactable caches) (collect_nearby caches max_nm positions)
  unfolding collect_nearby
  collect_nearby-IsContactable caches max_nm [] = tt
  collect_nearby-IsContactable caches max_nm ((icao, (apt_lat, apt_lon)) ∷ positions) =
      let rest = collect_nearby-IsContactable caches max_nm positions in
      elim (Bool-cases (in_range caches max_nm apt_lat apt_lon)) [
        | inl j ↦ rw j (contactable-cases caches icao _ _ (lookup icao caches.freq_cache) refl rest)
        | inr j ↦ rw j rest
      ]

  All-insert :
      (P : NearbyAirport F → Type 0) (a : NearbyAirport F) (bs : List (NearbyAirport F))
      → P a
      → All P bs
      → All P (insert_nearby a bs)
  unfolding insert_nearby
  All-insert P a [] h k = (h, tt)
  All-insert P a (b ∷ bs) h k = elim (Bool-cases (b.distance_nm <? a.distance_nm)) [
    | inl j ↦ rw j (k.0, All-insert P a bs h k.1)
    | inr j ↦ rw j (h, k)
  ]

  All-sort :
      (P : NearbyAirport F → Type 0) (bs : List (NearbyAirport F))
      → All P bs
      → All P (sort_nearby bs)
  unfolding sort_nearby
  All-sort P [] h = tt
  All-sort P (a ∷ bs) h = All-insert P a (sort_nearby bs) h.0 (All-sort P bs h.1)

  All-take :
      (P : NearbyAirport F → Type 0) (n : ℕ) (bs : List (NearbyAirport F))
      → All P bs
      → All P (take n bs)
  All-take P zero bs h = tt
  All-take P (suc n) [] h = tt
  All-take P (suc n) (a ∷ bs) h = (h.0, All-take P n bs h.1)

  length-take_le : (n : ℕ) (bs : List (NearbyAirport F)) → length (take n bs) ≤ n
  length-take_le zero bs = omega arith
  length-take_le (suc n) [] = omega arith
  length-take_le (suc n) (a ∷ bs) = omega (arith, length-take_le n bs)

  -- The pilot is offered no more airports than asked for, and only those that can be called on one of
  -- their frequencies.
  pub find_nearby_airports-IsContactable :
      (caches : Caches F) (max_nm : F) (max_count : ℕ)
      → (length (find_nearby_airports caches max_nm max_count) ≤ max_count)
        × All (IsContactable caches) (find_nearby_airports caches max_nm max_count)
  unfolding find_nearby_airports
  find_nearby_airports-IsContactable caches max_nm max_count =
      let found = sort_nearby (collect_nearby caches max_nm caches.pos_cache) in
      let all =
        All-sort (IsContactable caches) _
          (collect_nearby-IsContactable caches max_nm caches.pos_cache) in
      elim (Bool-cases (not caches.towered_cache_ready || max_count == 0)) [
        | inl j ↦ rw j (omega arith, tt)
        | inr j ↦
            rw j
              (length-take_le max_count found, All-take (IsContactable caches) max_count found all)
      ]
