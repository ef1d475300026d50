-- ===== src/IntentRules/Meaning.antt =====
-- What the predicates mean, and which rule decides.
use xp_wellys_devfr_atc.Base.{
  ◌≡◌, ◌↔◌, ◌⊎◌, inl, inr, refl, sym, ap, ◌∙◌, Bool, true, false, not, ◌&&◌, ◌||◌, String, List, [],
  ◌∷◌, ◌++◌, reverse, Bool-cases, arith,
}
use mathlib.Core.List.{reverse-append, reverse-reverse}
use xp_wellys_devfr_atc.Base.Runs.{Run, codes, begins_with, contains}
use xp_wellys_devfr_atc.Double.{Double, whole}
use xp_wellys_devfr_atc.Intent.{PilotIntent, unknown}
use xp_wellys_devfr_atc.IntentRules.{
  Predicate, containing, starting_with, ending_with, has_facility, ends_with_runway_token, compound,
  Predicates, nil, cons, Rule, runway_token_suffixes, ends_with, padded, holds_facility,
  ends_with_any, eval_predicate, any_from, any_match, all_match, none_match, fires, match_rules,
}

-- The word is a part of the text.
abbrev pub IsWithin : Run → Run → Type 0
IsWithin word text = (before : Run) × (after : Run) × (text ≡ before ++ (word ++ after))

abbrev pub IsPrefix : Run → Run → Type 0
IsPrefix word text = (after : Run) × (text ≡ word ++ after)

abbrev pub IsSuffix : Run → Run → Type 0
IsSuffix word text = (before : Run) × (text ≡ before ++ word)

abbrev pub SomeSuffix : List String → Run → Type 0
SomeSuffix [] text = ⊥
SomeSuffix (token ∷ tokens) text = IsSuffix (codes token) text ⊎ SomeSuffix tokens text

-- What a predicate says of a text.
mutual
  pub Says : Predicate → Run → Type 0
  Says (containing value) text = IsWithin value text
  Says (starting_with value) text = IsPrefix value text
  Says (ending_with value) text = IsSuffix value text
  Says (has_facility value) text = IsWithin (32 ∷ (value ++ (32 ∷ []))) (padded text)
  Says ends_with_runway_token text = SomeSuffix runway_token_suffixes text
  Says (compound any_of all_of none_of) text =
      NoneSays none_of text × AnySays any_of text × AllSay all_of text

  pub SomeSays : Predicates → Run → Type 0
  SomeSays nil text = ⊥
  SomeSays (cons p preds) text = Says p text ⊎ SomeSays preds text

  -- No predicate is no constraint.
  pub AnySays : Predicates → Run → Type 0
  AnySays nil text = Unit
  AnySays (cons p preds) text = Says p text ⊎ SomeSays preds text

  pub AllSay : Predicates → Run → Type 0
  AllSay nil text = Unit
  AllSay (cons p preds) text = Says p text × AllSay preds text

  pub NoneSays : Predicates → Run → Type 0
  NoneSays nil text = Unit
  NoneSays (cons p preds) text = ¬ Says p text × NoneSays preds text

begins_with→IsPrefix : (p s : Run) → begins_with p s ≡ true → IsPrefix p s
unfolding begins_with
begins_with→IsPrefix [] s h = (s, refl)
begins_with→IsPrefix (c ∷ p) [] h = absurd (ground arith)
begins_with→IsPrefix (c ∷ p) (b ∷ s) h =
    let (after, e) = begins_with→IsPrefix p s (ground arith) in (after, ground (arith, e))

begins_with-append : (p s : Run) → begins_with p (p ++ s) ≡ true
unfolding begins_with
begins_with-append [] s = refl
begins_with-append (c ∷ p) s = ground (arith, begins_with-append p s)

begins_with_iff : (p s : Run) → (begins_with p s ≡ true) ↔ IsPrefix p s
begins_with_iff p s = (begins_with→IsPrefix p s, λ e. rw e.1 (begins_with-append p e.0))

contains→IsWithin : (p s : Run) → contains p s ≡ true → IsWithin p s
unfolding contains
contains→IsWithin p [] h = let (after, e) = begins_with→IsPrefix p [] h in ([], after, e)
contains→IsWithin p (c ∷ s) h = elim (Bool-cases (begins_with p (c ∷ s))) [
  | inl e ↦ let (after, f) = begins_with→IsPrefix p (c ∷ s) e in ([], after, f)
  | inr e ↦
      let (before, after, f) = contains→IsWithin p s (ground arith) in
      (c ∷ before, after, ap (λ t. c ∷ t) f)
]

contains-append : (p before after : Run) → contains p (before ++ (p ++ after)) ≡ true
unfolding contains
contains-append [] [] [] = refl
contains-append [] [] (c ∷ after) = refl
contains-append (c ∷ p) [] after = ground (arith, begins_with-append (c ∷ p) after)
contains-append p (b ∷ before) after = ground (arith, contains-append p before after)

contains_iff : (p s : Run) → (contains p s ≡ true) ↔ IsWithin p s
contains_iff p s = (contains→IsWithin p s, λ e. rw e.2 (contains-append p e.0 e.1))

ends_with_iff : (s p : Run) → (ends_with s p ≡ true) ↔ IsSuffix p s
unfolding ends_with
ends_with_iff s p = (
  λ h.
      let (after, e) = begins_with→IsPrefix (reverse p) (reverse s) h in
      (
        reverse after,
        sym (reverse-reverse s)
            ∙ ap reverse e
            ∙ reverse-append (reverse p) after
            ∙ ap (λ t. reverse after ++ t) (reverse-reverse p),
      ),
  λ e.
      ap (λ t. begins_with (reverse p) (reverse t)) e.1
      ∙ ap (begins_with (reverse p)) (reverse-append e.0 p)
      ∙ begins_with-append (reverse p) (reverse e.0),
)

module _ {P Q : Type 0} where
  or_iff : (a b : Bool) → ((a ≡ true) ↔ P) → ((b ≡ true) ↔ Q) → ((a || b) ≡ true) ↔ (P ⊎ Q)
  or_iff true b f g = (λ _. inl (f.0 refl), λ _. refl)
  or_iff false b f g = (λ h. inr (g.0 h), λ e. elim e [ inl p ↦ cc (f.1 p) | inr q ↦ g.1 q ])

  and_iff : (a b : Bool) → ((a ≡ true) ↔ P) → ((b ≡ true) ↔ Q) → ((a && b) ≡ true) ↔ (P × Q)
  and_iff true b f g = (λ h. (f.0 refl, g.0 h), λ e. g.1 e.1)
  and_iff false b f g = (λ h. cc, λ e. f.1 e.0)

not_iff : {P : Type 0} (a : Bool) → ((a ≡ true) ↔ P) → (not a ≡ true) ↔ (¬ P)
not_iff true f = (λ h. cc, λ n. absurd (n (f.0 refl)))
not_iff false f = (λ _ p. cc (f.1 p), λ _. refl)

and_and_iff :
    {P Q R : Type 0} (a b c : Bool)
    → ((a ≡ true) ↔ P)
    → ((b ≡ true) ↔ Q)
    → ((c ≡ true) ↔ R)
    → ((a && b && c) ≡ true) ↔ (P × Q × R)
and_and_iff a b c f g h =
    let both = and_iff (a && b) c (and_iff a b f g) h in
    (λ e. let ((p, q), r) = both.0 e in (p, q, r), λ e. both.1 ((e.0, e.1), e.2))

ends_with_any_iff :
    (tokens : List String) (text : Run)
    → (ends_with_any tokens text ≡ true) ↔ SomeSuffix tokens text
unfolding ends_with_any
ends_with_any_iff [] text = (λ h. cc, λ e. absurd e)
ends_with_any_iff (token ∷ tokens) text =
    or_iff (ends_with text (codes token)) (ends_with_any tokens text)
      (ends_with_iff text (codes token)) (ends_with_any_iff tokens text)

mutual
  unfolding eval_predicate Says holds_facility

  eval_iff : (p : Predicate) (text : Run) → (eval_predicate p text ≡ true) ↔ Says p text
  eval_iff (containing value) text = contains_iff value text
  eval_iff (starting_with value) text = begins_with_iff value text
  eval_iff (ending_with value) text = ends_with_iff text value
  eval_iff (has_facility value) text = contains_iff (32 ∷ (value ++ (32 ∷ []))) (padded text)
  eval_iff ends_with_runway_token text = ends_with_any_iff runway_token_suffixes text
  eval_iff (compound any_of all_of none_of) text =
      and_and_iff (none_match none_of text) (any_match any_of text) (all_match all_of text)
        (none_iff none_of text) (any_iff any_of text) (all_iff all_of text)

  some_iff : (preds : Predicates) (text : Run) → (any_from preds text ≡ true) ↔ SomeSays preds text
  some_iff nil text = (λ h. cc, λ e. absurd e)
  some_iff (cons p preds) text =
      or_iff (eval_predicate p text) (any_from preds text) (eval_iff p text) (some_iff preds text)

  any_iff : (preds : Predicates) (text : Run) → (any_match preds text ≡ true) ↔ AnySays preds text
  any_iff nil text = (λ _. tt, λ _. refl)
  any_iff (cons p preds) text =
      or_iff (eval_predicate p text) (any_from preds text) (eval_iff p text) (some_iff preds text)

  all_iff : (preds : Predicates) (text : Run) → (all_match preds text ≡ true) ↔ AllSay preds text
  all_iff nil text = (λ _. tt, λ _. refl)
  all_iff (cons p preds) text =
      and_iff (eval_predicate p text) (all_match preds text) (eval_iff p text) (all_iff preds text)

  none_iff :
      (preds : Predicates) (text : Run) → (none_match preds text ≡ true) ↔ NoneSays preds text
  none_iff nil text = (λ _. tt, λ _. refl)
  none_iff (cons p preds) text =
      and_iff (not (eval_predicate p text)) (none_match preds text)
        (not_iff (eval_predicate p text) (eval_iff p text)) (none_iff preds text)

module _ {F : Type 0} where
  -- What a rule asks of a text.
  abbrev pub Asks : Rule F → Run → Type 0
  Asks r text = NoneSays r.none_of text × AnySays r.any_of text × AllSay r.all_of text

  fires_iff : (text : Run) (r : Rule F) → (fires text r ≡ true) ↔ Asks r text
  unfolding fires
  fires_iff text r =
      and_and_iff (none_match r.none_of text) (any_match r.any_of text) (all_match r.all_of text)
        (none_iff r.none_of text) (any_iff r.any_of text) (all_iff r.all_of text)

module _ {F : Type 0} ⦃d : Double F⦄ where
  -- The intent and the confidence of the first rule whose conditions hold; without one, UNKNOWN.
  abbrev pub IsDecided : List (Rule F) → Run → PilotIntent × F → Type 0
  IsDecided [] text result = result ≡ (unknown, whole 0)
  IsDecided (r ∷ rules) text result =
      (Asks r text × (result ≡ (r.intent, r.confidence)))
      ⊎ (¬ Asks r text × IsDecided rules text result)

  -- The table decides by the first rule that asks for nothing but what is so: none of its exclusions,
  -- one of its alternatives if it has any, and all of its demands, where a predicate means that a word
  -- is a part of the text, begins it, ends it or stands alone in it, or is such a rule in turn.
  -- Without such a rule the intent is UNKNOWN with the confidence 0.
  pub match_rules-IsDecided :
      (rules : List (Rule F)) (text : Run) → IsDecided rules text (match_rules rules text)
  unfolding match_rules
  match_rules-IsDecided [] text = refl
  match_rules-IsDecided (r ∷ rules) text = elim (Bool-cases (fires text r)) [
    | inl e ↦ inl ((fires_iff text r).0 e, rw (e, match_rules) refl)
    | inr e ↦ inr (
      λ asked. cc (e, (fires_iff text r).1 asked),
      rw (e, match_rules) (match_rules-IsDecided rules text),
    )
  ]
