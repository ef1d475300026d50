-- ===== src/Airspace.antt =====
-- The index of controllers (src/data/airspace_db.hpp and .cpp): which airspace encloses a point,
-- and the cache of the polygons. A pointer to a controller is its place in the list; the lines of
-- the file from an offset on, and the numbers of a line, are arguments.
pub mod Cache
use xp_wellys_devfr_atc.Base.{
  ℕ, zero, suc, ◌-◌, Bool, true, false, not, ◌&&◌, ◌||◌, String, Option, none, some, List, [], ◌∷◌,
  ◌++◌, ltb, ◌==◌, length, any, get_elem?, bool_eq, if◌then◌else◌,
}
use xp_wellys_devfr_atc.Base.Runs.{Run, codes, run_eq, begins_with}
use xp_wellys_devfr_atc.Double.{Double, ◌<?◌, add, sub, mul, div, lit, whole}

pub data ControllerRole : Type 0 where
  unknown twr tracon ctr : ControllerRole

abbrev pub role_index : ControllerRole → ℕ
role_index unknown = 0
role_index twr = 1
role_index tracon = 2
role_index ctr = 3

-- The altitudes, which are compared with a `float`, are of its type.
pub record Controller (F : Type 0) : Type 0 where
  pub name : String
  pub facility_id : String
  pub role : ControllerRole
  pub freqs_khz : List ℕ
  pub airspace_class : String
  pub transition_alt_ft : F
  pub floor_ft : F
  pub ceiling_ft : F
  pub bbox_min_lat : F
  pub bbox_max_lat : F
  pub bbox_min_lon : F
  pub bbox_max_lon : F
  pub has_bbox : Bool
  pub polygons : List (List (F × F))
  pub polygons_loaded : Bool
  pub file_offset : ℕ

-- The static variables; the most recent controller is the last of `lru`.
pub record Index (F : Type 0) : Type 0 where
  pub controllers : List (Controller F)
  pub enabled : Bool
  pub lru : List ℕ

-- What the loader reads: the lines from an offset on, and the point of a line.
pub record Source (F : Type 0) : Type 0 where
  pub lines_from : ℕ → List Run
  pub point_of : Run → F × F

abbrev pub update_at : {A : Type 0} → (A → A) → ℕ → List A → List A
update_at f i [] = []
update_at f zero (x ∷ xs) = f x ∷ xs
update_at f (suc i) (x ∷ xs) = x ∷ update_at f i xs

abbrev pub erase_first : ℕ → List ℕ → List ℕ
erase_first i [] = []
erase_first i (j ∷ js) = if j == i then js else j ∷ erase_first i js

abbrev last_of : {A : Type 0} → A → List A → A
last_of x [] = x
last_of x (y ∷ ys) = last_of y ys

-- Without the `\r` at the end.
abbrev trim_return : Run → Run
trim_return [] = []
trim_return (c ∷ []) = if c == 13 then [] else c ∷ []
trim_return (c ∷ b ∷ s) = c ∷ trim_return (b ∷ s)

module _ {F : Type 0} where
  -- The controller that is kept, and how far it may be beaten.
  abbrev kept : Option (ℕ × F) → Option ℕ
  kept none = none
  kept (some (i, dist)) = some i

  abbrev bound_of : F → Option (ℕ × F) → F
  bound_of most none = most
  bound_of most (some (i, dist)) = dist

  abbrev keep_ring : List (F × F) → List (List (F × F)) → List (List (F × F))
  keep_ring [] rings = rings
  keep_ring (p ∷ ring) rings = (p ∷ ring) ∷ rings

  -- The loop over (in_block, current, lines), up to the next controller.
  unfoldable pub rings_of : (Run → F × F) → Bool → List (F × F) → List Run → List (List (F × F))
  unfolding begins_with
  rings_of point in_block current [] = []
  rings_of point in_block current (raw ∷ lines) =
      let line = trim_return raw in
      let begun = rings_of point true [] lines in
      let ended = rings_of point false [] lines in
      let grown = rings_of point in_block (current ++ (point line ∷ [])) lines in
      let passed = rings_of point in_block current lines in
      if run_eq line (codes "CONTROLLER")
      then []
      else if begins_with (codes "AIRSPACE_POLYGON_BEGIN") line
      then begun
      else if run_eq line (codes "AIRSPACE_POLYGON_END")
      then keep_ring current ended
      else if in_block && begins_with (codes "POINT ") line
      then grown
      else passed

  unfoldable pub load_polygons_locked : Source F → Controller F → Controller F
  unfolding rings_of
  load_polygons_locked source c = if c.polygons_loaded then c else record c {
    polygons = c.polygons ++ rings_of source.point_of false [] (source.lines_from c.file_offset);
    polygons_loaded = true;
  }

  abbrev pub forget : Controller F → Controller F
  forget c = record c { polygons = []; polygons_loaded = false }

  -- `while (lru_.size() > kLruMax)`.
  unfoldable pub evict : List ℕ → List (Controller F) → List ℕ × List (Controller F)
  evict [] cs = ([], cs)
  evict (i ∷ lru) cs =
      let evicted = evict lru (update_at forget i cs) in
      if ltb 50 (length (i ∷ lru)) then evicted else (i ∷ lru, cs)

  unfoldable pub touch_lru : ℕ → Index F → Index F
  unfolding evict
  touch_lru i db =
      let (lru, cs) = evict (erase_first i db.lru ++ (i ∷ [])) db.controllers in
      record db { controllers = cs; lru = lru }

  unfoldable pub ensure_polygons : Source F → ℕ → Index F → Index F
  unfolding load_polygons_locked touch_lru
  ensure_polygons source i db =
      touch_lru i
        (record db { controllers = update_at (load_polygons_locked source) i db.controllers })

  unfoldable pub stop : Index F → Index F
  stop db = record { controllers = []; enabled = false; lru = [] }

module _ {F : Type 0} ⦃d : Double F⦄ where
  -- Does the edge from `j` to `i` cross the ray?
  unfoldable pub crosses : F → F → F × F → F × F → Bool
  crosses lat lon (yi, xi) (yj, xj) =
      let rise = sub yj yi in
      let slope = if not (d.eq rise (whole 0)) then rise else lit 1 12 in
      not (bool_eq (lat <? yi) (lat <? yj))
      && lon <? add (div (mul (sub xj xi) (sub lat yi)) slope) xi

  -- The loop over (inside, j, points).
  unfoldable pub inside_from : F → F → Bool → F × F → List (F × F) → Bool
  unfolding crosses
  inside_from lat lon inside pj [] = inside
  inside_from lat lon inside pj (pi ∷ pts) =
      inside_from lat lon (if crosses lat lon pi pj then not inside else inside) pi pts

  unfoldable pub point_in_ring : F → F → List (F × F) → Bool
  unfolding inside_from
  point_in_ring lat lon [] = false
  point_in_ring lat lon (p ∷ pts) =
      if ltb (length (p ∷ pts)) 3
      then false
      else inside_from lat lon false (last_of p pts) (p ∷ pts)

  unfoldable pub haversine_nm : F → F → F → F → F
  haversine_nm lat1 lon1 lat2 lon2 =
      let d2r = div (lit 314159265358979323846 20) (whole 180) in
      let half_lat = d.sin (div (mul (sub lat2 lat1) d2r) (whole 2)) in
      let half_lon = d.sin (div (mul (sub lon2 lon1) d2r) (whole 2)) in
      let a =
        add (mul half_lat half_lat)
          (mul (mul (mul (d.cos (mul lat1 d2r)) (d.cos (mul lat2 d2r))) half_lon) half_lon) in
      let root = d.sqrt a in
      let least = if root <? whole 1 then root else whole 1 in
      mul (mul (whole 2) (lit 3440065 3)) (d.asin least)

  unfoldable pub bbox_contains : Controller F → F → F → F → Bool
  bbox_contains c lat lon alt_ft =
      if not c.has_bbox
      then false
      else if whole 180 <? sub c.bbox_max_lon c.bbox_min_lon
      then false
      else if whole 90 <? sub c.bbox_max_lat c.bbox_min_lat
      then false
      else if lat <? c.bbox_min_lat || c.bbox_max_lat <? lat
      then false
      else if lon <? c.bbox_min_lon || c.bbox_max_lon <? lon
      then false
      else if whole 0 <? c.ceiling_ft && c.ceiling_ft <? alt_ft
      then false
      else if alt_ft <? sub c.floor_ft (whole 1)
      then false
      else true

  -- Do the polygons of the controller at the place enclose the point?
  unfoldable pub encloses : F → F → ℕ → Index F → Bool
  unfolding point_in_ring
  encloses lat lon i db = elim (get_elem? db.controllers i) [
    | none ↦ false
    | some c ↦ any (point_in_ring lat lon) c.polygons
  ]

  -- The loop over (i, controllers).
  unfoldable pub enclosing_from :
      Source F → F → F → F → ℕ → List (Controller F) → Index F → Index F × List ℕ
  unfolding bbox_contains ensure_polygons encloses
  enclosing_from source lat lon alt_ft i [] db = (db, [])
  enclosing_from source lat lon alt_ft i (c ∷ cs) db =
      let db' = if bbox_contains c lat lon alt_ft then ensure_polygons source i db else db in
      let (last, out) = enclosing_from source lat lon alt_ft (suc i) cs db' in
      if bbox_contains c lat lon alt_ft && encloses lat lon i db'
      then (last, i ∷ out)
      else (last, out)

  unfoldable pub find_enclosing : Source F → F → F → F → Index F → Index F × List ℕ
  unfolding enclosing_from
  find_enclosing source lat lon alt_ft db =
      if not db.enabled then (db, []) else enclosing_from source lat lon alt_ft 0 db.controllers db

  unfoldable pub centre_distance : Controller F → F → F → F
  unfolding haversine_nm
  centre_distance c lat lon =
      haversine_nm lat lon (mul (lit 5 1) (add c.bbox_min_lat c.bbox_max_lat))
        (mul (lit 5 1) (add c.bbox_min_lon c.bbox_max_lon))

  -- The loop over (nearest, i, controllers): the first that encloses, else the nearest in 100 NM.
  unfoldable pub by_freq_from :
      Source F
      → ℕ
      → F
      → F
      → F
      → Option (ℕ × F)
      → ℕ
      → List (Controller F)
      → Index F
      → Index F × Option ℕ
  unfolding bbox_contains ensure_polygons encloses centre_distance
  by_freq_from source freq lat lon alt_ft nearest i [] db = (db, kept nearest)
  by_freq_from source freq lat lon alt_ft nearest i (c ∷ cs) db =
      let matched = any (λ f. f == freq) c.freqs_khz in
      let db' =
        if matched && bbox_contains c lat lon alt_ft then ensure_polygons source i db else db in
      let dist = centre_distance c lat lon in
      let bound = bound_of (whole 1000000000) nearest in
      let nearest' =
        if matched && c.has_bbox && (dist <? bound && dist <? whole 100)
        then some (i, dist)
        else nearest in
      let later = by_freq_from source freq lat lon alt_ft nearest' (suc i) cs db' in
      if matched && bbox_contains c lat lon alt_ft && encloses lat lon i db'
      then (db', some i)
      else later

  unfoldable pub lookup_by_freq : Source F → ℕ → F → F → F → Index F → Index F × Option ℕ
  unfolding by_freq_from
  lookup_by_freq source freq_khz lat lon alt_ft db =
      if not db.enabled || freq_khz == 0
      then (db, none)
      else by_freq_from source freq_khz lat lon alt_ft none 0 db.controllers db

  -- The loop over (best, i, controllers).
  unfoldable pub by_role_from :
      ControllerRole → F → F → F → Option (ℕ × F) → ℕ → List (Controller F) → Option ℕ
  unfolding bbox_contains centre_distance
  by_role_from role lat lon alt_ft best i [] = kept best
  by_role_from role lat lon alt_ft best i (c ∷ cs) =
      let dist = centre_distance c lat lon in
      let bound = bound_of (whole 1000000000) best in
      let is_better =
        role_index c.role == role_index role && bbox_contains c lat lon alt_ft && dist <? bound in
      by_role_from role lat lon alt_ft (if is_better then some (i, dist) else best) (suc i) cs

  unfoldable pub find_by_role_near : ControllerRole → F → F → F → Index F → Option ℕ
  unfolding by_role_from
  find_by_role_near role lat lon alt_ft db =
      if not db.enabled then none else by_role_from role lat lon alt_ft none 0 db.controllers
