-- ===== src/Clearance/Obligation.antt =====
-- What a clearance obliges the pilot to read back.
use xp_wellys_devfr_atc.Base.{
  ◌≡◌, ◌⊎◌, inl, inr, refl, true, false, String, List, [], ◌∷◌, keep, is_empty, All, Bool-cases,
  arith,
}
use xp_wellys_devfr_atc.Intent.{PilotIntent}
use xp_wellys_devfr_atc.Readback.{
  Element, callsign, runway, qnh, frequency, squawk, ClearanceComponents, expected_value,
}
use xp_wellys_devfr_atc.Vars.{Vars}
use xp_wellys_devfr_atc.Base.Runs.{codes, contains}
use xp_wellys_devfr_atc.Clearance.{
  tmpl_has, issued_frequency, clearance_candidates, issued_values, is_obligated,
  build_clearance_components,
}

-- The template has the placeholder.
abbrev HasSlot : String → String → Type 0
HasSlot tmpl slot = contains (codes slot) (codes tmpl) ≡ true

-- The template says the element.
abbrev Says : String → Element → Type 0
Says tmpl callsign = Unit
Says tmpl runway = HasSlot tmpl "{runway}"
Says tmpl qnh = HasSlot tmpl "{qnh}"
Says tmpl frequency =
    HasSlot tmpl "{frequency}"
    ⊎ HasSlot tmpl "{tower_frequency}"
    ⊎ HasSlot tmpl "{ground_frequency}"
Says tmpl squawk = HasSlot tmpl "{squawk}"

-- The element is the callsign; or the template says it, and the clearance has a value of it.
abbrev pub IsStated : String → ClearanceComponents → Element → Type 0
IsStated tmpl comp e = (e ≡ callsign) ⊎ Says tmpl e × (is_empty (expected_value comp e) ≡ false)

issued_frequency-Says :
    (vars : Vars) (tmpl : String)
    → is_empty (issued_frequency vars tmpl) ≡ false
    → Says tmpl frequency
unfolding issued_frequency tmpl_has
issued_frequency-Says vars tmpl h =
    elim (Bool-cases (contains (codes "{frequency}") (codes tmpl))) [
      | inl e ↦ inl e
      | inr e ↦ elim (Bool-cases (contains (codes "{tower_frequency}") (codes tmpl))) [
        | inl f ↦ inr (inl f)
        | inr f ↦ elim (Bool-cases (contains (codes "{ground_frequency}") (codes tmpl))) [
          | inl g ↦ inr (inr g)
          | inr g ↦
              let empty : is_empty (issued_frequency vars tmpl) ≡ true =
                simp (issued_frequency, tmpl_has, e, f, g) in
              absurd (ground arith)
        ]
      ]
    ]

obligated-IsStated :
    (vars : Vars) (tmpl : String) (owed : List Element) (e : Element)
    → is_obligated tmpl (issued_values vars tmpl) e ≡ true
    → IsStated tmpl (record (issued_values vars tmpl) { required = owed }) e
unfolding is_obligated expected_value issued_values tmpl_has
obligated-IsStated vars tmpl owed callsign h = inl refl
obligated-IsStated vars tmpl owed runway h = inr (ground arith, ground arith)
obligated-IsStated vars tmpl owed qnh h = inr (ground arith, ground arith)
obligated-IsStated vars tmpl owed frequency h =
    let filled : is_empty (issued_frequency vars tmpl) ≡ false = ground arith in
    inr (issued_frequency-Says vars tmpl filled, filled)
obligated-IsStated vars tmpl owed squawk h = inr (ground arith, ground arith)

All-keep :
    (vars : Vars) (tmpl : String) (owed es : List Element)
    → let comp = issued_values vars tmpl in
      All (IsStated tmpl (record comp { required = owed })) (keep (is_obligated tmpl comp) es)
All-keep vars tmpl owed [] = tt
All-keep vars tmpl owed (e ∷ es) =
    elim (Bool-cases (is_obligated tmpl (issued_values vars tmpl) e)) [
      | inl h ↦ rw h (obligated-IsStated vars tmpl owed e h, All-keep vars tmpl owed es)
      | inr h ↦ rw h (All-keep vars tmpl owed es)
    ]

abbrev further : List Element → List Element
further [] = []
further (e ∷ es) = es

candidates_lem :
    (intent : PilotIntent)
    → clearance_candidates intent ≡ callsign ∷ further (clearance_candidates intent)
unfolding clearance_candidates
candidates_lem intent = ground arith

-- The obligation of every clearance begins with the callsign. Every further element that it names has
-- a placeholder in the template of the response, and a value in the clearance that is not empty; for
-- the frequency one of its three placeholders.
pub obligation-IsStated :
    (intent : PilotIntent) (vars : Vars) (tmpl : String)
    → let comp = build_clearance_components intent vars tmpl in
      (rest : List Element) × (comp.required ≡ callsign ∷ rest) × All (IsStated tmpl comp) rest
unfolding build_clearance_components is_obligated
obligation-IsStated intent vars tmpl = (
  keep (is_obligated tmpl (issued_values vars tmpl)) (further (clearance_candidates intent)),
  rw (candidates_lem intent) refl,
  All-keep vars tmpl _ (further (clearance_candidates intent)),
)
