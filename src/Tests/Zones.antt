-- ===== src/Tests/Zones.antt =====
-- The airspaces at concrete inputs.
use xp_wellys_devfr_atc.Base.{ℕ, ◌≡◌, ◌⊎◌, refl, true, some, [], ◌∷◌, get_elem?}
use xp_wellys_devfr_atc.Base.Runs.{codes}
use xp_wellys_devfr_atc.Double.{whole}
use xp_wellys_devfr_atc.Double.Fixed.{Fixed, fixed_double, Fixed-IsOrdered}
use xp_wellys_devfr_atc.OpenAir.{
  AirspaceClass, Entry, Db, parse_class, parse_alt, push_vertex, finalize, contains, find_enclosing,
  find_all_enclosing, no_airspace, entry_of,
}
use xp_wellys_devfr_atc.OpenAir.Innermost.{Unbeaten, find_enclosing-Unbeaten}

abbrev blank : Entry Fixed
blank = record {
  name = "FREIBURG";
  ac_class = AirspaceClass.rmz;
  floor_ft = whole 0;
  ceiling_ft = whole 2000;
  bbox_min_lat = whole 0;
  bbox_max_lat = whole 0;
  bbox_min_lon = whole 0;
  bbox_max_lon = whole 0;
  bbox_area = whole 0;
  polygon = [];
}

abbrev zone : Entry Fixed
zone = record blank {
  bbox_min_lat = whole 47;
  bbox_max_lat = whole 49;
  bbox_min_lon = whole 7;
  bbox_max_lon = whole 9;
  bbox_area = whole 4;
  polygon =
      (whole 47, whole 7) ∷ (whole 49, whole 7) ∷ (whole 49, whole 9) ∷ (whole 47, whole 9) ∷ [];
}

abbrev zones : Db Fixed
zones = record {
  entries = record zone { name = "ALSACE"; bbox_area = whole 9 } ∷ zone ∷ [];
  is_ready = true;
}

finalize_square :
    finalize true
      (push_vertex (whole 47) (whole 9) (
        push_vertex
          (whole 49)
          (whole 9)
          (push_vertex (whole 49) (whole 7) (push_vertex (whole 47) (whole 7) blank))))
      []
    ≡ zone ∷ []
unfolding finalize push_vertex
finalize_square = refl

inner_zone : find_enclosing zones (whole 48) (whole 8) (whole 1000) ≡ entry_of zone
unfolding find_enclosing
inner_zone = refl

above_zones : find_all_enclosing zones (whole 48) (whole 8) (whole 3000) ≡ []
unfolding find_all_enclosing
above_zones = refl

flight_level : parse_alt {F = Fixed} (λ s. whole 95) (codes " FL095") ≡ whole {F = Fixed} 9500
unfolding parse_alt
flight_level = refl

restricted : parse_class (codes "ED-R") ≡ AirspaceClass.ed_r
unfolding parse_class
restricted = refl

find_enclosing-Unbeaten_example :
    ((find_enclosing zones (whole 48) (whole 8) (whole 1000) ≡ no_airspace)
      × (find_all_enclosing zones (whole 48) (whole 8) (whole 1000) ≡ []))
    ⊎ (i : ℕ) × (e : Entry Fixed) × (find_enclosing zones (whole 48) (whole 8) (whole 1000)
        ≡ entry_of e)
      × (get_elem? zones.entries i ≡ some e)
      × (contains e (whole 48) (whole 8) (whole 1000) ≡ true)
      × Unbeaten (whole 48) (whole 8) (whole 1000) e zones.entries
find_enclosing-Unbeaten_example =
    find_enclosing-Unbeaten Fixed-IsOrdered (whole 48) (whole 8) (whole 1000) zones refl
