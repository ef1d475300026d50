-- ===== src/Clearance.antt =====
-- The readback obligation of a clearance (src/atc/atc_state_machine.cpp): which elements a pilot
-- owes, and the snapshot of what was issued; and the strict check of a readback.
pub mod Obligation
pub mod Strict
use xp_wellys_devfr_atc.Base.{
  Bool, true, false, not, ◌&&◌, String, Option, none, some, List, [], ◌∷◌, any, keep, lookup,
  text_eq, is_empty, or_empty, if◌then◌else◌,
}
use xp_wellys_devfr_atc.Phraseology.Spoken.{parse_spoken_number}
use xp_wellys_devfr_atc.Base.Runs.{codes, contains}
use xp_wellys_devfr_atc.Intent.{
  PilotIntent, PilotMessage, request_taxi, initial_call_inbound, ready_for_departure,
  ready_for_departure_vfr, request_landing, request_touch_and_go, request_frequency, readback,
  intent_eq,
}
use xp_wellys_devfr_atc.Readback.{
  Element, callsign, runway, qnh, frequency, squawk, ClearanceComponents, FieldDiff, is_covered,
  build_correction_response,
}
use xp_wellys_devfr_atc.Readback.Match.{diff_readback}
use xp_wellys_devfr_atc.Machine.{Machine}
use xp_wellys_devfr_atc.Env.{Env}
use xp_wellys_devfr_atc.Vars.{Vars, known_callsign}
use xp_wellys_devfr_atc.Response.{Response}

unfoldable pub clearance_candidates : PilotIntent → List Element
clearance_candidates request_taxi = callsign ∷ runway ∷ qnh ∷ []
clearance_candidates initial_call_inbound = callsign ∷ runway ∷ qnh ∷ []
clearance_candidates ready_for_departure = callsign ∷ runway ∷ []
clearance_candidates ready_for_departure_vfr = callsign ∷ runway ∷ []
clearance_candidates request_landing = callsign ∷ runway ∷ []
clearance_candidates request_touch_and_go = callsign ∷ runway ∷ []
clearance_candidates request_frequency = callsign ∷ frequency ∷ []
clearance_candidates _ = callsign ∷ []

abbrev var : Vars → String → String
var vars key = or_empty (lookup key vars)

-- `response_template.find(placeholder) != npos`.
unfoldable pub tmpl_has : String → String → Bool
tmpl_has response_template placeholder = contains (codes placeholder) (codes response_template)

unfoldable pub issued_frequency : Vars → String → String
issued_frequency vars tmpl =
    if tmpl_has tmpl "{frequency}"
    then var vars "frequency"
    else if tmpl_has tmpl "{tower_frequency}"
    then var vars "tower_frequency"
    else if tmpl_has tmpl "{ground_frequency}"
    then var vars "ground_frequency"
    else ""

-- The values of the snapshot, before the obligations are chosen.
unfoldable pub issued_values : Vars → String → ClearanceComponents
unfolding issued_frequency
issued_values vars tmpl = record {
  callsign = var vars "callsign";
  runway = var vars "runway";
  qnh = var vars "qnh";
  frequency = issued_frequency vars tmpl;
  squawk = var vars "squawk";
  required = [];
}

-- The `switch` that decides whether a candidate is kept.
unfoldable pub is_obligated : String → ClearanceComponents → Element → Bool
is_obligated tmpl comp callsign = true
is_obligated tmpl comp runway = tmpl_has tmpl "{runway}" && not (is_empty comp.runway)
is_obligated tmpl comp qnh = tmpl_has tmpl "{qnh}" && not (is_empty comp.qnh)
is_obligated tmpl comp frequency = not (is_empty comp.frequency)
is_obligated tmpl comp squawk = tmpl_has tmpl "{squawk}" && not (is_empty comp.squawk)

unfoldable pub build_clearance_components : PilotIntent → Vars → String → ClearanceComponents
unfolding issued_values is_obligated
build_clearance_components intent vars tmpl =
    let comp = issued_values vars tmpl in
    record comp { required = keep (is_obligated tmpl comp) (clearance_candidates intent) }

module _ {F : Type 0} where
  -- Does the check apply to this call?
  unfoldable pub strict_applies : Env F → PilotMessage → Machine F → Bool
  strict_applies env msg m =
      text_eq env.settings.atc_profile "DE"
      && env.settings.bzf_strict_mode
      && intent_eq msg.intent readback
      && not (is_empty m.last_clearance_text)

  unfoldable pub readback_diff : Env F → PilotMessage → Machine F → List FieldDiff
  readback_diff env msg m =
      diff_readback parse_spoken_number m.last_clearance_components (codes msg.raw_transcript)

  -- `some` is `true`, with the response that was overwritten.
  unfoldable pub apply_bzf_strict_check : Env F → PilotMessage → Machine F → Option Response
  unfolding strict_applies readback_diff
  apply_bzf_strict_check env msg m =
      let diff = readback_diff env msg m in
      if not (strict_applies env msg m)
      then none
      else if not (any (λ f. not (is_covered f.status)) diff)
      then none
      else some (record {
        text = build_correction_response env.templates (known_callsign env m msg) diff;
        next_state = m.state;
        requires_readback = true;
      })
