-- ===== src/Hints.antt =====
-- The phraseology hints (src/atc/phraseology_hints.cpp). The loaded rules are a value; a field of a
-- rule is one of the shapes of JSON that the code tells apart.
use xp_wellys_devfr_atc.Base.{
  ◌-◌, Bool, true, false, ◌&&◌, ◌||◌, String, Option, none, some, List, [], ◌∷◌, any, find, map,
  text_eq, bool_eq, if◌then◌else◌,
}
use xp_wellys_devfr_atc.Base.Runs.{codes, text_of, is_lower}
use xp_wellys_devfr_atc.State.{AtcState, DepartureType, state_name}
use xp_wellys_devfr_atc.FlightPhase.{FlightPhase, phase_name}
use xp_wellys_devfr_atc.Radio.{FacilityType, FrequencyType, frequency_type_name}

-- An item of an array that is not a string is `none`.
pub data Field : Type 0 where
  null_field : Field
  string_field : String → Field
  array_field : List (Option String) → Field
  bool_field : Bool → Field
  other_field : Field

pub record HintRule : Type 0 where
  pub is_object : Bool
  pub state : Field
  pub phase : Field
  pub facility : Field
  pub frequency_type : Field
  pub tower_only : Field
  pub post_landing : Field
  pub intents : List (Option String)

pub record HintQuery : Type 0 where
  pub state : AtcState
  pub phase : FlightPhase
  pub facility : FacilityType
  pub frequency_type : FrequencyType
  pub tower_only : Bool
  pub post_landing : Bool

abbrev is_any_or : String → Option String → Bool
is_any_or value none = false
is_any_or value (some s) = text_eq s "any" || text_eq s value

unfoldable pub match_string : Field → String → Bool
match_string null_field value = true
match_string (string_field s) value = is_any_or value (some s)
match_string (array_field items) value = any (is_any_or value) items
match_string (bool_field b) value = false
match_string other_field value = false

unfoldable pub match_bool : Field → Bool → Bool
match_bool null_field value = true
match_bool (string_field s) value = text_eq s "any"
match_bool (array_field items) value = false
match_bool (bool_field b) value = bool_eq b value
match_bool other_field value = false

-- ASCII letters only.
abbrev upcased : String → String
upcased s = text_of (map (λ c. if is_lower c then c - 32 else c) (codes s))

unfoldable pub facility_token : FacilityType → String
facility_token FacilityType.towered = "towered"
facility_token FacilityType.afis = "afis"
facility_token FacilityType.uncontrolled = "uncontrolled"
facility_token FacilityType.unknown = "unknown"

unfoldable pub rule_matches : DepartureType → HintQuery → HintRule → Bool
unfolding match_string match_bool facility_token
rule_matches departure q rule =
    rule.is_object
    && match_string rule.state (state_name departure q.state)
    && match_string rule.phase (phase_name q.phase)
    && match_string rule.facility (facility_token q.facility)
    && match_string rule.frequency_type (upcased (frequency_type_name q.frequency_type))
    && match_bool rule.tower_only q.tower_only
    && match_bool rule.post_landing q.post_landing

abbrev strings_of : List (Option String) → List String
strings_of [] = []
strings_of (none ∷ items) = strings_of items
strings_of (some s ∷ items) = s ∷ strings_of items

-- The intents of the first rule that matches; without loaded rules the list is empty.
unfoldable pub lookup : List HintRule → DepartureType → HintQuery → List String
unfolding rule_matches
lookup rules departure q = elim (find (rule_matches departure q) rules) [
  | none ↦ []
  | some rule ↦ strings_of rule.intents
]
