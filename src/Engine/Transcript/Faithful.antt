-- ===== src/Engine/Transcript/Faithful.antt =====
-- What the language model can change of a message.
use xp_wellys_devfr_atc.Base.{
  ◌≤◌, ◌≡◌, ◌⊎◌, inl, inr, refl, Bool, true, false, ◌&&◌, String, any, Bool-cases, arith,
}
use xp_wellys_devfr_atc.Base.Runs.{Run, codes, to_lower, contains}
use xp_wellys_devfr_atc.Double.{Double, lit}
use xp_wellys_devfr_atc.Intent.{intent_from_key}
use xp_wellys_devfr_atc.Engine.Repair.{extract_digit_tokens, forbidden, repair_violates_history}
use xp_wellys_devfr_atc.Engine.Repair.Tokens.{count, repair_invents_digits_iff}
use xp_wellys_devfr_atc.Engine.Transcript.{
  ClassifyResult, Pending, set_intent, repair_accepted, lm_message,
}

-- No group of digits is new, and after a landing no phrase of a departure is in it.
abbrev pub IsPlausible : String → Bool → String → Type 0
IsPlausible original just_landed repaired =
    ((t : Run)
      → count t (extract_digit_tokens (codes repaired))
        ≤ count t (extract_digit_tokens (codes original)))
    × ((just_landed
          && any (λ needle. contains (codes needle) (to_lower (codes repaired))) forbidden)
        ≡ false)

module _ {F : Type 0} ⦃d : Double F⦄ where
  repair_accepted-IsPlausible :
      (q : Pending F) (result : ClassifyResult)
      → repair_accepted q result ≡ true
      → IsPlausible q.original_transcript q.just_landed_snapshot result.repaired_transcript
  unfolding repair_accepted repair_violates_history
  repair_accepted-IsPlausible q result h =
      let original = codes q.original_transcript in
      let repaired = codes result.repaired_transcript in
      ((repair_invents_digits_iff original repaired).0 (ground arith), ground arith)

  -- The message that goes on from the language model is the parser's with another intent and the
  -- confidence 0.85, and otherwise either unchanged or with a repaired text. A repaired text has no group of
  -- digits more often than the original, and after a landing no phrase of a departure.
  pub lm_message-IsPlausible :
      (q : Pending F) (result : ClassifyResult) (key : String)
      → let msg = set_intent (intent_from_key key) (lit 85 2) q.parsed in
        (lm_message q result key ≡ msg)
        ⊎ (lm_message q result key ≡ record msg {
          message = record msg.message { raw_transcript = result.repaired_transcript };
        })
          × IsPlausible q.original_transcript q.just_landed_snapshot result.repaired_transcript
  unfolding lm_message
  lm_message-IsPlausible q result key = elim (Bool-cases (repair_accepted q result)) [
    | inl e ↦ inr (rw (e, lm_message) refl, repair_accepted-IsPlausible q result e)
    | inr e ↦ inl (rw (e, lm_message) refl)
  ]
