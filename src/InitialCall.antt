-- ===== src/InitialCall.antt =====
-- The conformance of a first call (src/atc/initial_call_conformance.cpp): which elements of the
-- call are missing, and the request for them. The parsed conformance.json is a value; the reversal
-- of spoken numbers is an argument; the callers pass `parse_spoken_number`.
use xp_wellys_devfr_atc.Base.{
  ℕ, Bool, true, false, not, ◌&&◌, ◌||◌, String, Option, none, some, List, [], ◌∷◌, ◌++◌, any, keep,
  map, lookup, text_eq, concat, is_empty, if◌then◌else◌,
}
use xp_wellys_devfr_atc.Base.Runs.{
  Run, codes, run_eq, is_nil, is_alnum, to_lower, begins_with, contains, tokens_from,
}
use xp_wellys_devfr_atc.Intent.{PilotMessage}
use xp_wellys_devfr_atc.Templates.{replace_all, or_else}

-- The entry of one intent. Entries of an array that are no texts are left out, as the source does.
pub record ConformanceNode : Type 0 where
  pub required : List String
  pub recommended : List String
  pub element_keywords : List (String × List String)
  pub missing_response : Option String
  pub element_prompts : List (String × String)

pub record Conformance : Type 0 where
  pub loaded : Bool
  pub nodes : List (String × ConformanceNode)

pub record Result : Type 0 where
  pub missing_required : List String
  pub missing_recommended : List String

abbrev or_blank : ℕ → ℕ
or_blank c = if is_alnum c then c else 32

abbrev blank : Run
blank = 32 ∷ []

unfoldable pub token_contains : Run → Run → Bool
unfolding contains
token_contains padded needle =
    if is_nil needle then false else contains (blank ++ (to_lower needle ++ blank)) padded

abbrev letters : List String
letters =
    "alfa" ∷ "alpha" ∷ "bravo" ∷ "charlie" ∷ "delta" ∷ "echo" ∷ "foxtrot" ∷ "golf" ∷ "hotel"
    ∷ "india" ∷ "juliet" ∷ "juliett" ∷ "kilo" ∷ "lima" ∷ "mike" ∷ "november" ∷ "oscar" ∷ "papa"
    ∷ "quebec" ∷ "romeo" ∷ "sierra" ∷ "tango" ∷ "uniform" ∷ "victor" ∷ "whiskey" ∷ "wisky" ∷ "xray"
    ∷ "yankee" ∷ "zulu" ∷ []

abbrev is_letter : Run → Bool
is_letter token = any (λ l. run_eq token (codes l)) letters

-- A letter within the next two tokens.
abbrev letter_follows : List Run → Bool
letter_follows [] = false
letter_follows (t ∷ []) = is_letter t
letter_follows (t ∷ u ∷ rest) = is_letter t || is_letter u

unfoldable pub information_letter : List Run → Bool
unfolding begins_with
information_letter [] = false
information_letter (t ∷ rest) =
    (begins_with (codes "information") t && letter_follows rest) || information_letter rest

unfoldable pub has_information_letter : Run → Bool
unfolding information_letter tokens_from
has_information_letter raw = information_letter (tokens_from is_alnum [] (to_lower raw))

abbrev keyword_list : ConformanceNode → String → List String
keyword_list node element = or_else (lookup element node.element_keywords) []

unfoldable pub any_keyword : Run → List String → Bool
any_keyword padded keywords = any (λ k. token_contains padded (codes k)) keywords

-- `ctx` is read for the aircraft type alone.
unfoldable pub element_present : String → ConformanceNode → Run → PilotMessage → String → Bool
element_present element node padded msg aircraft_icao =
    if text_eq element "position"
    then msg.has_position || not (is_empty msg.vrp_name)
    else if text_eq element "atis_letter"
    then has_information_letter (codes msg.raw_transcript)
    else if text_eq element "intention"
    then any_keyword padded (keyword_list node "intention")
    else if text_eq element "request"
    then any_keyword padded (keyword_list node "request")
    else if text_eq element "aircraft_type"
    then any_keyword padded (keyword_list node "aircraft_type")
      || (not (is_empty aircraft_icao) && token_contains padded (codes aircraft_icao))
    else true

-- "A", "A und B", "A, B und C": the labels behind the first.
unfoldable pub join_rest : List String → String
join_rest [] = ""
join_rest (l ∷ []) = concat (" und " ∷ l ∷ [])
join_rest (l ∷ k ∷ ls) = concat (", " ∷ l ∷ join_rest (k ∷ ls) ∷ [])

unfoldable pub join_labels : List String → String
unfolding join_rest
join_labels [] = ""
join_labels (l ∷ ls) = concat (l ∷ join_rest ls ∷ [])

abbrev pub node_of : Conformance → String → Option ConformanceNode
node_of c intent_key = if c.loaded then lookup intent_key c.nodes else none

abbrev label_of : Option ConformanceNode → String → String
label_of none el = el
label_of (some node) el = or_else (lookup el node.element_prompts) el

abbrev template_of : Option ConformanceNode → String
template_of none = "{callsign}, sagen Sie {missing}."
template_of (some node) = or_else node.missing_response "{callsign}, sagen Sie {missing}."

unfoldable pub build_request_prompt : Conformance → String → String → List String → String
unfolding join_labels
build_request_prompt c intent_key callsign missing =
    let node = node_of c intent_key in
    replace_all "{missing}" (join_labels (map (label_of node) missing))
      (replace_all "{callsign}" callsign (template_of node))

module _ (parse_spoken_number : Run → Run) where
  unfoldable pub token_form : Run → Run
  token_form raw = blank ++ (map or_blank (to_lower (parse_spoken_number raw)) ++ blank)

  unfoldable pub missing_of : ConformanceNode → PilotMessage → String → List String → List String
  unfolding token_form
  missing_of node msg icao =
      keep (λ el. not (element_present el node (token_form (codes msg.raw_transcript)) msg icao))

  unfoldable pub evaluate : Conformance → String → PilotMessage → String → Result
  unfolding missing_of
  evaluate c intent_key msg icao = elim (node_of c intent_key) [
    | none ↦ record { missing_required = []; missing_recommended = [] }
    | some node ↦ record {
      missing_required = missing_of node msg icao node.required;
      missing_recommended = missing_of node msg icao node.recommended;
    }
  ]
