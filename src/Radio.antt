-- ===== src/Radio.antt =====
-- Radio frequencies of an airport (src/core/xplane_context.cpp and .hpp): the types, the search for
-- a tuned frequency, the facility class and the refinement of a type by its apt.dat name.
pub mod Lookup
use xp_wellys_devfr_atc.Base.{
  ℕ, zero, suc, ◌+◌, ◌-◌, Bool, true, false, not, ◌&&◌, ◌||◌, String, Option, none, some, List, [],
  ◌∷◌, ltb, leb, ◌==◌, if◌then◌else◌, any, find, map, reverse,
}
use xp_wellys_devfr_atc.Base.Runs.{codes, run_eq}
use xp_wellys_devfr_atc.Double.{Double, lit, mul}

pub data FrequencyType : Type 0 where
  unknown delivery ground tower unicom ctaf atis info radio : FrequencyType

pub data FacilityType : Type 0 where
  unknown uncontrolled towered afis : FacilityType

abbrev pub frequency_index : FrequencyType → ℕ
frequency_index FrequencyType.unknown = 0
frequency_index FrequencyType.delivery = 1
frequency_index FrequencyType.ground = 2
frequency_index FrequencyType.tower = 3
frequency_index FrequencyType.unicom = 4
frequency_index FrequencyType.ctaf = 5
frequency_index FrequencyType.atis = 6
frequency_index FrequencyType.info = 7
frequency_index FrequencyType.radio = 8

-- `==` on the enumeration.
abbrev pub frequency_eq : FrequencyType → FrequencyType → Bool
frequency_eq a b = frequency_index a == frequency_index b

pub record AirportFrequency : Type 0 where
  pub freq_khz : ℕ
  pub type : FrequencyType

abbrev pub AirportFrequencies : Type 0
AirportFrequencies = List AirportFrequency

unfoldable pub priority_rank : FrequencyType → ℕ
priority_rank FrequencyType.tower = 7
priority_rank FrequencyType.ground = 6
priority_rank FrequencyType.delivery = 5
priority_rank FrequencyType.info = 4
priority_rank FrequencyType.radio = 4
priority_rank FrequencyType.atis = 3
priority_rank FrequencyType.ctaf = 2
priority_rank FrequencyType.unicom = 1
priority_rank FrequencyType.unknown = 0

unfoldable pub has : AirportFrequencies → FrequencyType → Bool
has all ft = any (λ f. frequency_eq f.type ft) all

-- `diff > 1` is skipped.
unfoldable pub in_tolerance : ℕ → AirportFrequency → Bool
in_tolerance target f =
    not (ltb 1 (if ltb f.freq_khz target then target - f.freq_khz else f.freq_khz - target))

-- `rank > best_rank`, where `none` is the initial -1.
abbrev pub outranks : ℕ → Option ℕ → Bool
outranks rank none = true
outranks rank (some best) = ltb best rank

-- The loop of `AirportFrequencies::lookup`, over (best, best_rank).
unfoldable pub lookup_from : ℕ → FrequencyType → Option ℕ → AirportFrequencies → FrequencyType
lookup_from target best best_rank [] = best
lookup_from target best best_rank (f ∷ all) =
    let rank = priority_rank f.type in
    let better = in_tolerance target f && outranks rank best_rank in
    lookup_from target (if better then f.type else best) (if better then some rank else best_rank)
      all

unfoldable pub classify_facility : AirportFrequencies → FacilityType
unfolding has
classify_facility freqs =
    if has freqs FrequencyType.tower
    then FacilityType.towered
    else if has freqs FrequencyType.info || has freqs FrequencyType.radio
    then FacilityType.afis
    else if has freqs FrequencyType.unicom || has freqs FrequencyType.ctaf
    then FacilityType.uncontrolled
    else FacilityType.unknown

unfoldable pub has_contactable_atc : AirportFrequencies → Bool
unfolding classify_facility
has_contactable_atc freqs = elim (classify_facility freqs) [
  | FacilityType.unknown ↦ false
  | _ ↦ true
]

module _ {F : Type 0} ⦃d : Double F⦄ where
  unfoldable pub first_mhz : AirportFrequencies → FrequencyType → F
  first_mhz all ft = elim (find (λ f. frequency_eq f.type ft) all) [
    | none ↦ lit 0 0
    | some f ↦ d.div (lit f.freq_khz 0) (lit 1000 0)
  ]

  unfoldable pub lookup : AirportFrequencies → F → FrequencyType
  unfolding lookup_from
  lookup all freq_mhz =
      lookup_from (d.to_nat (d.round (mul freq_mhz (lit 1000 0)))) FrequencyType.unknown none all

unfoldable pub frequency_type_name : FrequencyType → String
frequency_type_name FrequencyType.unknown = "Unknown"
frequency_type_name FrequencyType.delivery = "Delivery"
frequency_type_name FrequencyType.ground = "Ground"
frequency_type_name FrequencyType.tower = "Tower"
frequency_type_name FrequencyType.unicom = "Unicom"
frequency_type_name FrequencyType.ctaf = "CTAF"
frequency_type_name FrequencyType.atis = "ATIS"
frequency_type_name FrequencyType.info = "Info"
frequency_type_name FrequencyType.radio = "Radio"

unfoldable pub facility_type_name : FacilityType → String
facility_type_name FacilityType.unknown = "Unknown"
facility_type_name FacilityType.uncontrolled = "Uncontrolled"
facility_type_name FacilityType.towered = "Towered"
facility_type_name FacilityType.afis = "AFIS"

abbrev pub is_blank : ℕ → Bool
is_blank c = c == 32 || c == 9 || c == 13 || c == 10

-- `find_last_not_of` and `find_last_of`, seen from the end of the text.
unfoldable pub skip_blanks : List ℕ → List ℕ
skip_blanks [] = []
skip_blanks (c ∷ cs) = let rest = skip_blanks cs in if is_blank c then rest else c ∷ cs

unfoldable pub until_blank : List ℕ → List ℕ
until_blank [] = []
until_blank (c ∷ cs) = let rest = until_blank cs in if is_blank c then [] else c ∷ rest

abbrev pub upper : ℕ → ℕ
upper c = if leb b'a' c && leb c b'z' then c - b'a' + b'A' else c

unfoldable pub last_token : List ℕ → List ℕ
unfolding skip_blanks until_blank
last_token name = map upper (reverse (until_blank (skip_blanks (reverse name))))

abbrev pub is_any_of : List ℕ → List String → Bool
is_any_of token names = any (λ n. run_eq token (codes n)) names

unfoldable pub classify_by_name : FrequencyType → String → FrequencyType
unfolding last_token
classify_by_name FrequencyType.tower name =
    let last = last_token (codes name) in
    if is_any_of last ("INFO" ∷ "INFORMATION" ∷ "IFO" ∷ [])
    then FrequencyType.info
    else if is_any_of last ("RADIO" ∷ "RDO" ∷ [])
    then FrequencyType.radio
    else FrequencyType.tower
classify_by_name base name = base
