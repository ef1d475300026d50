-- ===== src/Engine/Unclear.antt =====
-- The answers to a transmission that was not understood, and to bad language (src/atc/engine.cpp).
use xp_wellys_devfr_atc.Base.{
  ℕ, Bool, true, not, String, List, [], ◌∷◌, any, leb, ◌==◌, concat, is_empty, if◌then◌else◌,
}
use xp_wellys_devfr_atc.Base.Runs.{codes, to_lower, contains}
use xp_wellys_devfr_atc.Intent.{PilotMessage}
use xp_wellys_devfr_atc.Templates.{Templates, lookup_fallback}

abbrev keywords : List String
keywords =
    "tower" ∷ "ground" ∷ "approach" ∷ "runway" ∷ "request" ∷ "ready" ∷ "downwind" ∷ "base" ∷ "final"
    ∷ "holding" ∷ "qnh" ∷ "wilco" ∷ "roger" ∷ "departure" ∷ "information" ∷ "inbound" ∷ "vacated"
    ∷ []

unfoldable pub has_recognisable_elements : PilotMessage → Bool
has_recognisable_elements msg =
    if not (is_empty msg.callsign)
    then true
    else if not (is_empty msg.runway)
    then true
    else any (λ kw. contains (codes kw) (to_lower (codes msg.raw_transcript))) keywords

-- The session's callsign, the message's, or the fallback.
unfoldable pub addressee : String → PilotMessage → String → String
addressee session_cs msg fallback_cs =
    if not (is_empty session_cs)
    then session_cs
    else if not (is_empty msg.callsign)
    then msg.callsign
    else fallback_cs

-- The text at the streak that this transmission makes.
unfoldable pub unclear_text : Templates → String → PilotMessage → String → ℕ → String
unfolding has_recognisable_elements addressee
unclear_text t session_cs msg fallback_cs streak =
    let cs = addressee session_cs msg fallback_cs in
    let prefix = if is_empty cs then "" else concat (cs ∷ ", " ∷ []) in
    if leb 2 streak
    then concat (
        prefix
        ∷ lookup_fallback t "say_again_use_standard_phraseology"
            "say again, use standard phraseology."
        ∷ [])
    else if has_recognisable_elements msg
    then concat (
        prefix
        ∷ lookup_fallback t "garbled_say_again" "your transmission was garbled, say again."
        ∷ [])
    else concat (prefix ∷ lookup_fallback t "say_again" "say again." ∷ [])

unfoldable pub build_profanity_response : ℕ → String → String
build_profanity_response warning_number callsign =
    if warning_number == 1
    then concat (
        callsign ∷ ", maintain proper radio discipline. Use standard phraseology on this frequency."
        ∷ [])
    else if warning_number == 2
    then concat (
        callsign
        ∷ ", this is your final warning. Continued inappropriate language on this frequency will be reported to the civil aviation authority. Use standard phraseology."
        ∷ [])
    else concat (
        callsign
        ∷ ", your conduct has been noted and will be reported to the aviation authority. Maintain radio discipline immediately."
        ∷ [])
