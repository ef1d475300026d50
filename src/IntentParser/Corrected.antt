-- ===== src/IntentParser/Corrected.antt =====
-- A pilot who corrects himself.
use xp_wellys_devfr_atc.Base.{
  ◌≡◌, refl, sym, ap, ◌∙◌, Bool, true, false, not, ◌||◌, String, none, some, List, [], ◌∷◌, ◌++◌,
  ◌==◌, arith,
}
use xp_wellys_devfr_atc.Base.Runs.{Run, codes, is_nil, to_lower, begins_with, contains}
use xp_wellys_devfr_atc.Base.Scan.{span}
use xp_wellys_devfr_atc.Double.{Double}
use xp_wellys_devfr_atc.Intent.{PilotMessage}
use xp_wellys_devfr_atc.Context.{XplaneContext}
use xp_wellys_devfr_atc.Machine.{Machine}
use xp_wellys_devfr_atc.World.{World}
use xp_wellys_devfr_atc.IntentRules.{match_rules}
use xp_wellys_devfr_atc.IntentRules.Adjustments.{Adjustment, adjust, apply_adjustments}
use xp_wellys_devfr_atc.Engine.{Parsed}
use xp_wellys_devfr_atc.IntentParser.{Parser, heard_text, extracted, classified, parse}
use xp_wellys_devfr_atc.IntentParser.Correction.{
  around_last, trimmed, is_negation, strip_self_correction,
}

abbrev correction : Run
correction = codes "correction"

-- Neither empty nor led by punctuation.
abbrev pub is_plain_start : Run → Bool
is_plain_start [] = false
is_plain_start (c ∷ s) = not (c == b',' || c == 32 || c == b'.')

around_last-none : (word r : Run) → contains word r ≡ false → around_last word r ≡ none
unfolding around_last contains
around_last-none word [] h = refl
around_last-none word (c ∷ r) h =
    let ih = around_last-none word r (ground arith) in
    let front : begins_with word (c ∷ r) ≡ false = ground arith in rw (ih, front) refl

around_last-append :
    (before r : Run)
    → contains correction r ≡ false
    → around_last correction (before ++ (correction ++ (32 ∷ r))) ≡ some (before, 32 ∷ r)
unfolding around_last begins_with
around_last-append [] r h = rw (around_last-none correction r h) refl
around_last-append (c ∷ before) r h = rw (around_last-append before r h) refl

span-plain :
    (r : Run)
    → is_plain_start r ≡ true
    → (span (λ c. c == b',' || c == 32 || c == b'.') (32 ∷ r)).1 ≡ r
unfolding span
span-plain [] h = absurd (ground arith)
span-plain (c ∷ r) h =
    let stops : (c == b',' || c == 32 || c == b'.') ≡ false = ground arith in rw stops refl

strip_self_correction-append :
    (before r : Run)
    → contains correction r ≡ false
    → is_plain_start r ≡ true
    → is_negation (trimmed before) ≡ false
    → strip_self_correction (before ++ (correction ++ (32 ∷ r))) ≡ r
unfolding strip_self_correction
strip_self_correction-append before r h k n =
    let filled : is_nil r ≡ false = ground (arith, k) in
    rw (around_last-append before r h, strip_self_correction, span-plain r k, filled, n) refl

strip_self_correction-plain :
    (r : Run) → contains correction r ≡ false → strip_self_correction r ≡ r
unfolding strip_self_correction
strip_self_correction-plain r h = rw (around_last-none correction r h, strip_self_correction) refl

-- The same message with another text.
abbrev pub as_heard : String → PilotMessage → PilotMessage
as_heard transcript msg = record msg { raw_transcript = transcript }

module _ {F : Type 0} ⦃d : Double F⦄ where
  -- A message and its confidence, with another text.
  abbrev retold : String → PilotMessage × F → PilotMessage × F
  retold transcript heard = (as_heard transcript heard.0, heard.1)

  adjust-retold :
      (a : Adjustment F) (ctx : XplaneContext F) (text : Run) (m : Machine F) (transcript : String)
      (heard : PilotMessage × F)
      → adjust a ctx text m (retold transcript heard)
        ≡ retold transcript (adjust a ctx text m heard)
  unfolding adjust
  adjust-retold a ctx text m transcript (msg, confidence) = ground arith

  apply_adjustments-retold :
      (adjustments : List (Adjustment F)) (ctx : XplaneContext F) (text : Run) (m : Machine F)
      (transcript : String) (heard : PilotMessage × F)
      → apply_adjustments adjustments ctx text m (retold transcript heard)
        ≡ retold transcript (apply_adjustments adjustments ctx text m heard)
  unfolding apply_adjustments
  apply_adjustments-retold [] ctx text m transcript heard = refl
  apply_adjustments-retold (a ∷ rest) ctx text m transcript heard =
      ap (apply_adjustments rest ctx text m) (adjust-retold a ctx text m transcript heard)
      ∙ apply_adjustments-retold rest ctx text m transcript (adjust a ctx text m heard)

  heard_text-same :
      (parser : Parser F) (transcript rest : String)
      → strip_self_correction (to_lower (codes transcript))
        ≡ strip_self_correction (to_lower (codes rest))
      → heard_text parser transcript ≡ heard_text parser rest
  unfolding heard_text
  heard_text-same parser transcript rest e = rw (heard_text, e) refl

  extracted-as_heard :
      (parser : Parser F) (transcript rest : String) (ctx : XplaneContext F) (text : Run)
      → extracted parser transcript ctx text ≡ as_heard transcript (extracted parser rest ctx text)
  unfolding extracted
  extracted-as_heard parser transcript rest ctx text = refl

  classified-as_heard :
      (parser : Parser F) (w : World F) (ctx : XplaneContext F) (text : Run) (transcript : String)
      (msg : PilotMessage)
      → let understood = classified parser w ctx text msg in
        classified parser w ctx text (as_heard transcript msg)
        ≡ record understood { message = as_heard transcript understood.message }
  unfolding classified
  classified-as_heard parser w ctx text transcript msg =
      let (intent, confidence) = match_rules parser.rules text in
      let told : PilotMessage × F → Parsed F =
        λ heard. record { message = heard.0; confidence = heard.1 } in
      ap told (
        apply_adjustments-retold parser.adjustments ctx text w.machine transcript
          (record msg { intent = intent }, confidence))

  parse-retold :
      (parser : Parser F) (w : World F) (ctx : XplaneContext F) (transcript rest : String)
      → heard_text parser transcript ≡ heard_text parser rest
      → let understood = parse parser w rest ctx in
        parse parser w transcript ctx
        ≡ record understood { message = as_heard transcript understood.message }
  unfolding parse
  parse-retold parser w ctx transcript rest e =
      let text = heard_text parser rest in
      ap (λ t. classified parser w ctx t (extracted parser transcript ctx t)) e
      ∙ ap (classified parser w ctx text) (extracted-as_heard parser transcript rest ctx text)
      ∙ classified-as_heard parser w ctx text transcript (extracted parser rest ctx text)

  -- A transmission with a correction in it is understood as the correction alone: the message has the same
  -- intent, callsign, runway, point, destination and confidence, and only keeps the whole text. This holds
  -- where the word "correction" is followed by one space and then by a text that is not empty, does
  -- not begin with a comma, a space or a full stop, and does not have the word again; and where the
  -- part before the word, without the spaces, tabs, commas and full stops at its end, is not empty,
  -- is not "no" or "negative", and does not end in " no" or " negative".
  pub parse-corrected :
      (parser : Parser F) (w : World F) (ctx : XplaneContext F) (transcript rest : String)
      (before : Run)
      → to_lower (codes transcript) ≡ before ++ (codes "correction " ++ to_lower (codes rest))
      → contains (codes "correction") (to_lower (codes rest)) ≡ false
      → is_plain_start (to_lower (codes rest)) ≡ true
      → is_negation (trimmed before) ≡ false
      → let understood = parse parser w rest ctx in
        parse parser w transcript ctx
        ≡ record understood { message = as_heard transcript understood.message }
  parse-corrected parser w ctx transcript rest before e h k n =
      let r = to_lower (codes rest) in
      let same : strip_self_correction (to_lower (codes transcript)) ≡ strip_self_correction r =
        ap strip_self_correction e
        ∙ strip_self_correction-append before r h k n
        ∙ sym (strip_self_correction-plain r h) in
      parse-retold parser w ctx transcript rest (heard_text-same parser transcript rest same)
