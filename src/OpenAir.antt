-- ===== src/OpenAir.antt =====
-- The airspaces of the OpenAir files (src/data/openair_db.hpp and .cpp): the queries and what they
-- search. An `int` of feet is the `double` of its value. The lines of the files and arcs are left
-- out; the numbers that `strtol` reads are an argument.
pub mod Innermost
use xp_wellys_devfr_atc.Base.{
  ℕ, zero, suc, Bool, true, false, not, ◌&&◌, ◌||◌, String, Option, none, some, List, [], ◌∷◌, ◌++◌,
  ltb, ◌==◌, length, bool_eq, if◌then◌else◌,
}
use xp_wellys_devfr_atc.Base.Runs.{Run, codes, run_eq, begins_with}
use xp_wellys_devfr_atc.Base.Scan.{drop}
use xp_wellys_devfr_atc.Double.{Double, ◌<?◌, add, sub, mul, div, lit, whole}

pub data AirspaceClass : Type 0 where
  ctr tma cta rmz tmz ed_r other : AirspaceClass

unfoldable pub class_name : AirspaceClass → String
class_name AirspaceClass.ctr = "CTR"
class_name AirspaceClass.tma = "TMA"
class_name AirspaceClass.cta = "CTA"
class_name AirspaceClass.rmz = "RMZ"
class_name AirspaceClass.tmz = "TMZ"
class_name AirspaceClass.ed_r = "ED-R"
class_name AirspaceClass.other = "OTHER"

unfoldable pub parse_class : Run → AirspaceClass
parse_class s =
    if run_eq s (codes "CTR")
    then AirspaceClass.ctr
    else if run_eq s (codes "TMA")
    then AirspaceClass.tma
    else if run_eq s (codes "CTA")
    then AirspaceClass.cta
    else if run_eq s (codes "RMZ")
    then AirspaceClass.rmz
    else if run_eq s (codes "TMZ")
    then AirspaceClass.tmz
    else if run_eq s (codes "R") || run_eq s (codes "ED-R") || run_eq s (codes "EDR")
    then AirspaceClass.ed_r
    else AirspaceClass.other

unfoldable pub is_indexed : AirspaceClass → Bool
is_indexed AirspaceClass.other = false
is_indexed AirspaceClass.ctr = true
is_indexed AirspaceClass.tma = true
is_indexed AirspaceClass.cta = true
is_indexed AirspaceClass.rmz = true
is_indexed AirspaceClass.tmz = true
is_indexed AirspaceClass.ed_r = true

-- Without the spaces at the front.
abbrev skip_spaces : Run → Run
skip_spaces [] = []
skip_spaces (c ∷ s) = let rest = skip_spaces s in if c == 32 then rest else c ∷ s

pub record Entry (F : Type 0) : Type 0 where
  pub name : String
  pub ac_class : AirspaceClass
  pub floor_ft : F
  pub ceiling_ft : F
  pub bbox_min_lat : F
  pub bbox_max_lat : F
  pub bbox_min_lon : F
  pub bbox_max_lon : F
  pub bbox_area : F
  pub polygon : List (F × F)

pub record AirspaceEntry (F : Type 0) : Type 0 where
  pub name : String
  pub ac_class : AirspaceClass
  pub floor_ft : F
  pub ceiling_ft : F

-- The static variables.
pub record Db (F : Type 0) : Type 0 where
  pub entries : List (Entry F)
  pub is_ready : Bool

unfoldable pub stop : {F : Type 0} → Db F → Db F
stop db = record { entries = []; is_ready = false }

unfoldable pub entry_count : {F : Type 0} → Db F → ℕ
entry_count db = if db.is_ready then length db.entries else 0

abbrev last_of : {A : Type 0} → A → List A → A
last_of x [] = x
last_of x (y ∷ ys) = last_of y ys

module _ {F : Type 0} ⦃d : Double F⦄ where
  abbrev deg2rad : F
  deg2rad = div (lit 314159265358979323846 20) (whole 180)

  abbrev rad2deg : F
  rad2deg = div (whole 180) (lit 314159265358979323846 20)

  -- `strtol` is an argument.
  unfoldable pub parse_alt : (Run → F) → Run → F
  unfolding begins_with
  parse_alt strtol raw =
      let val = skip_spaces raw in
      if begins_with (codes "FL") val
      then mul (strtol (drop 2 val)) (whole 100)
      else if begins_with (codes "GND") val || begins_with (codes "SFC") val
      then whole 0
      else if begins_with (codes "UNLIM") val || begins_with (codes "UNL") val
      then whole 99999
      else strtol val

  -- Does the edge from `j` to `i` cross the ray? A point is its latitude and its longitude.
  unfoldable pub crosses : F → F → F × F → F × F → Bool
  crosses lat lon (yi, xi) (yj, xj) =
      not (bool_eq (lat <? yi) (lat <? yj))
      && lon <? add (div (mul (sub xj xi) (sub lat yi)) (sub yj yi)) xi

  -- The loop over (inside, j, points).
  unfoldable pub inside_from : F → F → Bool → F × F → List (F × F) → Bool
  unfolding crosses
  inside_from lat lon inside pj [] = inside
  inside_from lat lon inside pj (pi ∷ pts) =
      inside_from lat lon (if crosses lat lon pi pj then not inside else inside) pi pts

  unfoldable pub point_in_polygon : F → F → List (F × F) → Bool
  unfolding inside_from
  point_in_polygon lat lon [] = false
  point_in_polygon lat lon (p ∷ pts) =
      if ltb (length (p ∷ pts)) 3
      then false
      else inside_from lat lon false (last_of p pts) (p ∷ pts)

  -- The point at a bearing and a distance from a centre.
  unfoldable pub point_at : F → F → F → F → F × F
  point_at clat clon radius_nm bearing_deg =
      let degrees = div radius_nm (whole 60) in
      let dlat = mul degrees (d.cos (mul bearing_deg deg2rad)) in
      let cos_lat = d.cos (mul clat deg2rad) in
      let coslat = if d.fabs cos_lat <? lit 1 9 then lit 1 9 else cos_lat in
      let dlon = div (mul degrees (d.sin (mul bearing_deg deg2rad))) coslat in
      (add clat dlat, add clon dlon)

  unfoldable pub bearing_to : F → F → F → F → F
  bearing_to clat clon plat plon =
      let dlon = mul (sub plon clon) (d.cos (mul clat deg2rad)) in
      let b = mul (d.atan2 dlon (sub plat clat)) rad2deg in
      if b <? whole 0 then add b (whole 360) else b

  unfoldable pub dist_nm : F → F → F → F → F
  dist_nm clat clon plat plon =
      let dlat = mul (sub plat clat) (whole 60) in
      let dlon = mul (mul (sub plon clon) (d.cos (mul clat deg2rad))) (whole 60) in
      d.sqrt (add (mul dlat dlat) (mul dlon dlon))

  abbrev lesser : F → F → F
  lesser a b = if a <? b then a else b

  abbrev greater : F → F → F
  greater a b = if b <? a then a else b

  -- A vertex, and the box that grows around it.
  unfoldable pub push_vertex : F → F → Entry F → Entry F
  push_vertex lat lon e = elim e.polygon [
    | [] ↦ record e {
      bbox_min_lat = lat;
      bbox_max_lat = lat;
      bbox_min_lon = lon;
      bbox_max_lon = lon;
      polygon = (lat, lon) ∷ [];
    }
    | p ∷ polygon ↦ record e {
      bbox_min_lat = lesser lat e.bbox_min_lat;
      bbox_max_lat = greater lat e.bbox_max_lat;
      bbox_min_lon = lesser lon e.bbox_min_lon;
      bbox_max_lon = greater lon e.bbox_max_lon;
      polygon = (p ∷ polygon) ++ ((lat, lon) ∷ []);
    }
  ]

  -- The vertices from `i` on; as many as `count`.
  unfoldable pub circle_from : F → F → F → ℕ → ℕ → Entry F → Entry F
  unfolding push_vertex point_at
  circle_from clat clon radius_nm i zero e = e
  circle_from clat clon radius_nm i (suc count) e =
      let p = point_at clat clon radius_nm (mul (whole i) (whole 5)) in
      circle_from clat clon radius_nm (suc i) count (push_vertex p.0 p.1 e)

  unfoldable pub emit_circle : F → F → F → Entry F → Entry F
  unfolding circle_from
  emit_circle clat clon radius_nm e = circle_from clat clon radius_nm 0 72 e

  unfoldable pub finalize : Bool → Entry F → List (Entry F) → List (Entry F)
  finalize active cur entries =
      if active && not (ltb (length cur.polygon) 3)
      then entries
        ++ (record cur {
          bbox_area =
              mul (sub cur.bbox_max_lat cur.bbox_min_lat) (sub cur.bbox_max_lon cur.bbox_min_lon);
        }
            ∷ [])
      else entries

  unfoldable pub contains : Entry F → F → F → F → Bool
  unfolding point_in_polygon
  contains e lat lon alt_ft =
      if lat <? e.bbox_min_lat || e.bbox_max_lat <? lat
      then false
      else if lon <? e.bbox_min_lon || e.bbox_max_lon <? lon
      then false
      else if alt_ft <? e.floor_ft
      then false
      else if whole 0 <? e.ceiling_ft && e.ceiling_ft <? alt_ft
      then false
      else point_in_polygon lat lon e.polygon

  abbrev pub no_airspace : AirspaceEntry F
  no_airspace = record {
    name = "";
    ac_class = AirspaceClass.other;
    floor_ft = whole 0;
    ceiling_ft = whole 0;
  }

  abbrev pub entry_of : Entry F → AirspaceEntry F
  entry_of e = record {
    name = e.name;
    ac_class = e.ac_class;
    floor_ft = e.floor_ft;
    ceiling_ft = e.ceiling_ft;
  }

  -- `!best || e.bbox_area < best->bbox_area`.
  abbrev pub is_smaller : Entry F → Option (Entry F) → Bool
  is_smaller e none = true
  is_smaller e (some best) = e.bbox_area <? best.bbox_area

  -- The loop over (best, entries).
  unfoldable pub innermost_from : F → F → F → Option (Entry F) → List (Entry F) → Option (Entry F)
  unfolding contains
  innermost_from lat lon alt_ft best [] = best
  innermost_from lat lon alt_ft best (e ∷ es) =
      innermost_from lat lon alt_ft
        (if contains e lat lon alt_ft && is_smaller e best then some e else best) es

  unfoldable pub find_enclosing : Db F → F → F → F → AirspaceEntry F
  unfolding innermost_from
  find_enclosing db lat lon alt_ft =
      if not db.is_ready
      then no_airspace
      else elim (innermost_from lat lon alt_ft none db.entries) [
        | none ↦ no_airspace
        | some best ↦ entry_of best
      ]

  -- The loop over the entries.
  unfoldable pub all_from : F → F → F → List (Entry F) → List (AirspaceEntry F)
  unfolding contains
  all_from lat lon alt_ft [] = []
  all_from lat lon alt_ft (e ∷ es) =
      let rest = all_from lat lon alt_ft es in
      if contains e lat lon alt_ft then entry_of e ∷ rest else rest

  unfoldable pub find_all_enclosing : Db F → F → F → F → List (AirspaceEntry F)
  unfolding all_from
  find_all_enclosing db lat lon alt_ft =
      if not db.is_ready then [] else all_from lat lon alt_ft db.entries
