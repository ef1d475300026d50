-- ===== src/Tests/Index.antt =====
-- The index of controllers at concrete inputs.
use xp_wellys_devfr_atc.Base.{
  ℕ, zero, suc, ◌≡◌, ◌⊎◌, inr, sym, ap, refl, true, false, some, [], ◌∷◌, get_elem?, arith,
}
use xp_wellys_devfr_atc.Base.Runs.{codes, Run}
use xp_wellys_devfr_atc.Double.{whole}
use xp_wellys_devfr_atc.Double.Fixed.{Fixed, fixed_double}
use xp_wellys_devfr_atc.Airspace.{
  ControllerRole, Controller, Index, Source, find_enclosing, ensure_polygons, rings_of,
  point_in_ring,
}
use xp_wellys_devfr_atc.Airspace.Cache.{
  is_cached, IsUnloaded, loaded_of, polygons_of, enclosing, by_freq, ask_all, IsBounded,
  ask_all-IsBounded,
}

abbrev tower : Controller Fixed
tower = record {
  name = "FREIBURG";
  facility_id = "EDTF";
  role = ControllerRole.twr;
  freqs_khz = 118_250 ∷ [];
  airspace_class = "D";
  transition_alt_ft = whole 5000;
  floor_ft = whole 0;
  ceiling_ft = whole 2500;
  bbox_min_lat = whole 47;
  bbox_max_lat = whole 49;
  bbox_min_lon = whole 7;
  bbox_max_lon = whole 9;
  has_bbox = true;
  polygons = [];
  polygons_loaded = false;
  file_offset = 12;
}

abbrev index : Index Fixed
index = record { controllers = tower ∷ []; enabled = true; lru = [] }

-- The corners of a square, by the length of their lines.
abbrev corner : Run → Fixed × Fixed
corner (_ ∷ _ ∷ _ ∷ _ ∷ _ ∷ _ ∷ []) = (whole 47, whole 7)
corner (_ ∷ _ ∷ _ ∷ _ ∷ _ ∷ _ ∷ _ ∷ []) = (whole 49, whole 7)
corner (_ ∷ _ ∷ _ ∷ _ ∷ _ ∷ _ ∷ _ ∷ _ ∷ []) = (whole 49, whole 9)
corner _ = (whole 47, whole 9)

abbrev source : Source Fixed
source = record {
  lines_from = λ offset.
      codes "AIRSPACE_POLYGON_BEGIN 0 2500"
      ∷ codes "POINT "
      ∷ codes "POINT a"
      ∷ codes "POINT ab"
      ∷ codes "POINT abc"
      ∷ codes "AIRSPACE_POLYGON_END"
      ∷ codes "CONTROLLER"
      ∷ codes "POINT "
      ∷ [];
  point_of = corner;
}

inside_of_square : (find_enclosing source (whole 48) (whole 8) (whole 1000) index).1 ≡ 0 ∷ []
unfolding find_enclosing ensure_polygons rings_of point_in_ring
inside_of_square = refl

not_loaded :
    (i : ℕ) (c : Controller Fixed)
    → get_elem? index.controllers i ≡ some c
    → (is_cached i index.lru ≡ true) ⊎ IsUnloaded c
not_loaded zero c found = inr (sym (ap polygons_of found), sym (ap loaded_of found))
not_loaded (suc i) c found = absurd (ground arith)

index-IsBounded : IsBounded index
index-IsBounded = (omega arith, not_loaded)

ask_all-IsBounded_example : IsBounded (
    ask_all source
      (enclosing (whole 48) (whole 8) (whole 1000)
        ∷ by_freq 118_250 (whole 48) (whole 8) (whole 0)
        ∷ [])
      index)
ask_all-IsBounded_example =
    ask_all-IsBounded source
      (enclosing (whole 48) (whole 8) (whole 1000)
        ∷ by_freq 118_250 (whole 48) (whole 8) (whole 0)
        ∷ [])
      index index-IsBounded
