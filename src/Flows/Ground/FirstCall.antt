-- ===== src/Flows/Ground/FirstCall.antt =====
-- The guard for an incomplete first call.
use xp_wellys_devfr_atc.Base.{
  ◌≡◌, ◌⊎◌, inl, inr, refl, sym, Bool, true, false, not, String, text_eq, List, [], ◌∷◌, ◌++◌, some,
  any, keep, lookup, or_empty, Bool-cases, if◌then◌else◌,
}
use xp_wellys_devfr_atc.Phraseology.Spoken.{parse_spoken_number}
use xp_wellys_devfr_atc.Base.Runs.{codes}
use xp_wellys_devfr_atc.Double.{Double}
use xp_wellys_devfr_atc.Intent.{PilotMessage, PilotIntent, intent_eq}
use xp_wellys_devfr_atc.Context.{XplaneContext}
use xp_wellys_devfr_atc.InitialCall.{
  ConformanceNode, node_of, token_form, element_present, missing_of, evaluate, build_request_prompt,
}
use xp_wellys_devfr_atc.Machine.{Machine}
use xp_wellys_devfr_atc.Env.{Env}
use xp_wellys_devfr_atc.Vars.{build_vars}
use xp_wellys_devfr_atc.Response.{reply, proceed}
use xp_wellys_devfr_atc.Flows.Ground.{say, is_none, enforced, apply_initial_call_conformance}

keep-++ : {A : Type 0} (p : A → Bool) (xs ys : List A) → keep p (xs ++ ys) ≡ keep p xs ++ keep p ys
keep-++ p [] ys = refl
keep-++ p (x ∷ xs) ys =
    let rest = keep-++ p xs ys in
    elim (Bool-cases (p x)) [ inl e ↦ rw (e, rest) refl | inr e ↦ rw (e, rest) refl ]

is_none-keep : (p : String → Bool) (xs : List String) → is_none (keep p xs) ≡ not (any p xs)
is_none-keep p [] = refl
is_none-keep p (x ∷ xs) =
    let rest = is_none-keep p xs in
    elim (Bool-cases (p x)) [ inl e ↦ rw (e) refl | inr e ↦ rw (e) rest ]

module _ {F : Type 0} ⦃d : Double F⦄ (env : Env F) (msg : PilotMessage)
    (ctx : XplaneContext F) where
  -- The element is not found in the transmission.
  abbrev pub is_absent : ConformanceNode → String → Bool
  is_absent node el = not (
      element_present el node (token_form parse_spoken_number (codes msg.raw_transcript)) msg
        ctx.aircraft_icao)

  -- What the mode asks for.
  abbrev pub owed : ConformanceNode → List String
  owed node =
      if env.settings.bzf_strict_mode then node.required ++ node.recommended else node.required

  enforced-keep :
      (node : ConformanceNode)
      → node_of env.conformance "INITIAL_CALL_GROUND" ≡ some node
      → enforced env msg ctx ≡ keep (is_absent node) (owed node)
  unfolding enforced evaluate missing_of
  enforced-keep node h =
      rw (h, enforced, evaluate)
        (elim (Bool-cases env.settings.bzf_strict_mode) [
          | inl e ↦ rw (e) (sym (keep-++ (is_absent node) node.required node.recommended))
          | inr e ↦ rw (e) refl
        ])

  -- A first call to ground under the German profile, for which elements are configured, passes exactly
  -- if every element that the mode asks for, the recommended ones in strict mode, is found in it.
  -- Otherwise the controller asks for the absent elements, in the configured order. The machine stays
  -- as it is either way.
  pub apply_initial_call_conformance-outcome :
      (m : Machine F) (node : ConformanceNode)
      → intent_eq msg.intent PilotIntent.initial_call_ground ≡ true
      → text_eq env.settings.atc_profile "DE" ≡ true
      → node_of env.conformance "INITIAL_CALL_GROUND" ≡ some node
      → (any (is_absent node) (owed node) ≡ false
          × apply_initial_call_conformance env msg ctx m ≡ (m, proceed tt))
        ⊎ (any (is_absent node) (owed node) ≡ true
            × apply_initial_call_conformance env msg ctx m ≡ (
              m,
              reply (
                  say
                    (build_request_prompt env.conformance "INITIAL_CALL_GROUND"
                      (or_empty (lookup "callsign" (build_vars env m msg ctx)))
                      (keep (is_absent node) (owed node)))
                    m.state),
            ))
  unfolding apply_initial_call_conformance
  apply_initial_call_conformance-outcome m node hi hp hn =
      let none_left = is_none-keep (is_absent node) (owed node) in
      elim (Bool-cases (any (is_absent node) (owed node))) [
        | inl e ↦ inr (
          e,
          rw (hi, hp, enforced-keep node hn, none_left, e, apply_initial_call_conformance) refl,
        )
        | inr e ↦ inl (
          e,
          rw (hi, hp, enforced-keep node hn, none_left, e, apply_initial_call_conformance) refl,
        )
      ]
