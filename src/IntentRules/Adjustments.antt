-- ===== src/IntentRules/Adjustments.antt =====
-- The adjustments of a parsed message by context (src/atc/intent_rules.cpp).
use xp_wellys_devfr_atc.Base.{
  Bool, true, false, not, ◌&&◌, ◌||◌, String, Option, none, some, List, [], ◌∷◌, any, bool_eq,
  text_eq, is_empty, if◌then◌else◌,
}
use xp_wellys_devfr_atc.Base.Runs.{Run, codes, contains}
use xp_wellys_devfr_atc.Double.{Double, whole}
use xp_wellys_devfr_atc.Intent.{PilotIntent, PilotMessage, intent_eq}
use xp_wellys_devfr_atc.Context.{XplaneContext, is_towered}
use xp_wellys_devfr_atc.Machine.{Machine}
use xp_wellys_devfr_atc.Queries.{just_landed, at_airport_after_landing}

unfoldable pub is_airborne_only_intent : PilotIntent → Bool
is_airborne_only_intent i = any (intent_eq i) (
    PilotIntent.report_position ∷ PilotIntent.report_position_downwind
    ∷ PilotIntent.report_position_base ∷ PilotIntent.report_position_final
    ∷ PilotIntent.request_landing ∷ PilotIntent.request_touch_and_go ∷ PilotIntent.go_around ∷ [])

unfoldable pub is_ground_only_intent : PilotIntent → Bool
is_ground_only_intent i = any (intent_eq i) (
    PilotIntent.initial_call ∷ PilotIntent.initial_call_ground ∷ PilotIntent.initial_call_tower
    ∷ PilotIntent.request_taxi ∷ PilotIntent.request_taxi_parking ∷ PilotIntent.ready_for_departure
    ∷ PilotIntent.ready_for_departure_vfr ∷ PilotIntent.runway_vacated
    ∷ PilotIntent.self_announce_departure ∷ [])

pub record Adjustment (F : Type 0) : Type 0 where
  pub intent_equal : Option PilotIntent
  pub intent_in : List PilotIntent
  pub intent_is_airborne_only : Option Bool
  pub intent_is_ground_only : Option Bool
  pub on_ground : Option Bool
  pub towered : Option Bool
  pub vrp_name_set : Option Bool
  pub text_contains : String
  pub readback_pending : Option Bool
  pub was_airborne : Option Bool
  pub require_context_flag : String
  pub set_intent : Option PilotIntent
  pub set_confidence : Option F

-- An optional condition: not given, or met.
abbrev pub agrees : Option Bool → Bool → Bool
agrees none b = true
agrees (some wanted) b = bool_eq b wanted

abbrev same_intent : Option PilotIntent → PilotIntent → Bool
same_intent none i = true
same_intent (some wanted) i = intent_eq i wanted

abbrev among : List PilotIntent → PilotIntent → Bool
among [] i = true
among (j ∷ intents) i = any (intent_eq i) (j ∷ intents)

abbrev or_keep : {A : Type 0} → Option A → A → A
or_keep none a = a
or_keep (some b) a = b

module _ {F : Type 0} ⦃d : Double F⦄ where
  -- An unknown flag is never met.
  unfoldable pub context_flag : String → XplaneContext F → Machine F → Bool
  context_flag flag ctx m =
      if is_empty flag
      then true
      else if text_eq flag "just_landed"
      then just_landed ctx.now_secs (whole 120) m
      else if text_eq flag "at_airport_after_landing"
      then at_airport_after_landing ctx m
      else false

  unfoldable pub adjustment_applies :
      Adjustment F → PilotMessage → XplaneContext F → Run → Machine F → Bool
  unfolding context_flag is_airborne_only_intent is_ground_only_intent
  adjustment_applies a msg ctx text m =
      same_intent a.intent_equal msg.intent
      && among a.intent_in msg.intent
      && agrees a.intent_is_airborne_only (is_airborne_only_intent msg.intent)
      && agrees a.intent_is_ground_only (is_ground_only_intent msg.intent)
      && agrees a.on_ground ctx.on_ground
      && agrees a.towered (is_towered ctx)
      && agrees a.vrp_name_set (not (is_empty msg.vrp_name))
      && (is_empty a.text_contains || contains (codes a.text_contains) text)
      && agrees a.readback_pending m.readback_pending
      && agrees a.was_airborne m.was_airborne
      && context_flag a.require_context_flag ctx m

  -- The body of the loop.
  unfoldable pub adjust :
      Adjustment F → XplaneContext F → Run → Machine F → PilotMessage × F → PilotMessage × F
  unfolding adjustment_applies
  adjust a ctx text m (msg, confidence) =
      if adjustment_applies a msg ctx text m
      then (
        record msg { intent = or_keep a.set_intent msg.intent },
        or_keep a.set_confidence confidence,
      )
      else (msg, confidence)

  -- Each adjustment sees what the ones before have set.
  unfoldable pub apply_adjustments :
      List (Adjustment F) → XplaneContext F → Run → Machine F → PilotMessage × F → PilotMessage × F
  unfolding adjust
  apply_adjustments [] ctx text m heard = heard
  apply_adjustments (a ∷ rest) ctx text m heard =
      apply_adjustments rest ctx text m (adjust a ctx text m heard)
