-- ===== src/Vrps.antt =====
-- The reporting points of the airports (src/data/airport_vrps.hpp and .cpp). The loaded files are a
-- value.
use xp_wellys_devfr_atc.Base.{
  ℕ, zero, suc, ◌-◌, Bool, true, not, ◌&&◌, ◌||◌, String, Option, none, some, List, [], ◌∷◌, ◌==◌,
  find, lookup, length, get_elem?, or_empty, reverse, if◌then◌else◌,
}
use xp_wellys_devfr_atc.Base.Runs.{Run, codes, text_of, is_alnum, to_lower, begins_with}
use xp_wellys_devfr_atc.Base.Scan.{drop}

pub record Vrp (F : Type 0) : Type 0 where
  pub name : String
  pub lat : F
  pub lon : F
  pub alt_ft : F

pub record AirportData (F : Type 0) : Type 0 where
  pub name : String
  pub vrps : List (Vrp F)
  pub arrival_routes : List (String × List String)
  pub pattern_direction : List (String × String)

abbrev is_name_char : ℕ → Bool
is_name_char c = is_alnum c || c == b'_'

abbrev is_word_boundary : Run → Bool
is_word_boundary [] = true
is_word_boundary (c ∷ s) = not (is_name_char c)

abbrev is_boundary_behind : Option ℕ → Bool
is_boundary_behind none = true
is_boundary_behind (some c) = not (is_name_char c)

-- The needle stands at the front of the rest, as a whole word; `prev` is the character before.
unfoldable pub word_match : Option ℕ → Run → Run → Bool
unfolding begins_with
word_match prev s needle =
    begins_with needle s && is_boundary_behind prev && is_word_boundary (drop (length needle) s)

abbrev pub markers : List String
markers =
    "over " ∷ "at " ∷ "passing " ∷ "approaching " ∷ "abeam " ∷ "via " ∷ "ueber " ∷ "über " ∷ []

-- The runway without L, R or C; `none` if it has no such letter.
abbrev pub base_runway : String → Option String
base_runway runway = elim (reverse (codes runway)) [
  | [] ↦ none
  | c ∷ s ↦ if c == b'L' || c == b'R' || c == b'C' then some (text_of (reverse s)) else none
]

abbrev pub lookup_some : Option String → List (String × String) → Option String
lookup_some none directions = none
lookup_some (some key) directions = lookup key directions

module _ {F : Type 0} where
  -- The first point whose name stands behind one of the occurrences of the marker: over (skip, text).
  unfoldable pub point_behind : List (Vrp F) → Run → ℕ → Run → Option (Vrp F)
  unfolding begins_with word_match
  point_behind vrps marker skip [] = none
  point_behind vrps marker (suc skip) (c ∷ s) = point_behind vrps marker skip s
  point_behind vrps marker zero (c ∷ s) =
      let behind = drop (length marker) (c ∷ s) in
      let prev = get_elem? (reverse marker) 0 in
      let later = point_behind vrps marker (length marker - 1) s in
      if begins_with marker (c ∷ s)
      then (elim (find (λ vrp. word_match prev behind (to_lower (codes vrp.name))) vrps) [
        | some vrp ↦ some vrp
        | none ↦ later
      ])
      else point_behind vrps marker zero s

  unfoldable pub point_among : List String → List (Vrp F) → Run → String
  unfolding point_behind
  point_among [] vrps text = ""
  point_among (marker ∷ rest) vrps text = elim (point_behind vrps (codes marker) 0 text) [
    | some vrp ↦ vrp.name
    | none ↦ point_among rest vrps text
  ]

  unfoldable pub find_in_transcript : List (String × AirportData F) → String → Run → String
  unfolding point_among
  find_in_transcript airports icao transcript_lower = elim (lookup icao airports) [
    | none ↦ ""
    | some airport ↦ point_among markers airport.vrps transcript_lower
  ]

  -- The exact runway, the one without its letter, and the default.
  unfoldable pub get_pattern_direction : List (String × AirportData F) → String → String → String
  get_pattern_direction airports icao runway = elim (lookup icao airports) [
    | none ↦ ""
    | some airport ↦ elim (lookup runway airport.pattern_direction) [
      | some dir ↦ dir
      | none ↦ elim (lookup_some (base_runway runway) airport.pattern_direction) [
        | some dir ↦ dir
        | none ↦ or_empty (lookup "_default" airport.pattern_direction)
      ]
    ]
  ]
