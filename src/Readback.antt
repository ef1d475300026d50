-- ===== src/Readback.antt =====
-- Readback elements and clearances (src/atc/bzf_compliance.hpp and .cpp): the verdicts of a
-- readback and the tower's correction. How a value is found in the transcript is in Readback/Match.
pub mod Match
pub mod Verdict
use xp_wellys_devfr_atc.Base.{
  ℕ, Bool, true, false, not, ◌&&◌, ◌||◌, String, List, [], ◌∷◌, ◌==◌, any, concat, is_empty,
  if◌then◌else◌,
}
use xp_wellys_devfr_atc.Base.Runs.{Run}
use xp_wellys_devfr_atc.Templates.{Templates, lookup_bzf_strict, replace_all}

pub data Element : Type 0 where
  callsign runway qnh frequency squawk : Element

abbrev pub element_index : Element → ℕ
element_index callsign = 0
element_index runway = 1
element_index qnh = 2
element_index frequency = 3
element_index squawk = 4

-- `==` on the enumeration.
abbrev pub element_eq : Element → Element → Bool
element_eq a b = element_index a == element_index b

pub record ClearanceComponents : Type 0 where
  pub callsign : String
  pub runway : String
  pub qnh : String
  pub frequency : String
  pub squawk : String
  pub required : List Element

-- `ClearanceComponents{}`.
abbrev pub no_clearance : ClearanceComponents
no_clearance = record {
  callsign = "";
  runway = "";
  qnh = "";
  frequency = "";
  squawk = "";
  required = [];
}

pub data ReadbackStatus : Type 0 where
  covered missing wrong : ReadbackStatus

abbrev pub is_covered : ReadbackStatus → Bool
is_covered covered = true
is_covered _ = false

abbrev pub is_wrong : ReadbackStatus → Bool
is_wrong wrong = true
is_wrong _ = false

pub record FieldDiff : Type 0 where
  pub element : Element
  pub status : ReadbackStatus
  pub expected : String
  pub stated : Run

unfoldable pub element_name : Element → String
element_name callsign = "callsign"
element_name runway = "runway"
element_name qnh = "qnh"
element_name frequency = "frequency"
element_name squawk = "squawk"

unfoldable pub expected_value : ClearanceComponents → Element → String
expected_value comp callsign = comp.callsign
expected_value comp runway = comp.runway
expected_value comp qnh = comp.qnh
expected_value comp frequency = comp.frequency
expected_value comp squawk = comp.squawk

-- `std::find(…) != end`.
abbrev pub has_element : Element → List Element → Bool
has_element e = any (λ x. element_eq x e)

unfoldable pub readback_covers_core : List Element → List Element → Bool
readback_covers_core required missing_elements =
    let covered_at =
      λ (e : Element). has_element e required && not (has_element e missing_elements) in
    if not (covered_at callsign)
    then false
    else if not (any (λ e. not (element_eq e callsign)) required)
    then true
    else covered_at runway || covered_at qnh || covered_at frequency || covered_at squawk

unfoldable pub element_label : Templates → Element → String
element_label t runway = lookup_bzf_strict t "label_runway" "Piste"
element_label t qnh = lookup_bzf_strict t "label_qnh" "QNH"
element_label t frequency = lookup_bzf_strict t "label_frequency" "Frequenz"
element_label t squawk = lookup_bzf_strict t "label_squawk" "Squawk"
element_label t callsign = ""

unfoldable pub substitute_callsign : String → String → String
substitute_callsign tmpl cs = replace_all "{callsign}" cs tmpl

-- The loop that names each wrong value, over (body, diff).
unfoldable pub correction_body : Templates → String → List FieldDiff → String
correction_body t body [] = body
correction_body t body (f ∷ diff) =
    correction_body t
      (if is_wrong f.status
        then concat (
            body
            ∷ (if is_empty body then "" else ", ")
            ∷ element_label t f.element
            ∷ " "
            ∷ f.expected
            ∷ [])
        else body)
      diff

unfoldable pub build_correction_response : Templates → String → List FieldDiff → String
unfolding substitute_callsign correction_body element_label
build_correction_response t cs diff =
    if not (any (λ f. not (is_covered f.status)) diff)
    then ""
    else if not (any (λ f. is_wrong f.status) diff)
    then substitute_callsign
        (lookup_bzf_strict t "read_back" "{callsign}, WIEDERHOLEN SIE WOERTLICH.") cs
    else concat (
        substitute_callsign (lookup_bzf_strict t "negativ_lead" "{callsign}, NEGATIV,") cs
        ∷ " "
        ∷ correction_body t "" diff
        ∷ ", "
        ∷ lookup_bzf_strict t "read_back_tail" "WIEDERHOLEN SIE WOERTLICH."
        ∷ [])
