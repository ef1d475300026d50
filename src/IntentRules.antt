-- ===== src/IntentRules.antt =====
-- The rules that find the intent of a transcript (src/atc/intent_rules.cpp): predicates on the text,
-- the first rule that fires, and the adjustments by context. The loaded file is a value.
pub mod Meaning
pub mod Adjustments
use xp_wellys_devfr_atc.Base.{
  ℕ, Bool, true, false, not, ◌&&◌, ◌||◌, String, Option, none, some, List, [], ◌∷◌, ◌++◌, any, find,
  map, reverse, is_empty, if◌then◌else◌,
}
use xp_wellys_devfr_atc.Base.Runs.{Run, codes, is_nil, is_alnum, begins_with, contains, replace_run}
use xp_wellys_devfr_atc.Double.{Double, whole}
use xp_wellys_devfr_atc.Intent.{PilotIntent, unknown}

mutual
  pub data Predicate : Type 0 where
    containing : Run → Predicate
    starting_with : Run → Predicate
    ending_with : Run → Predicate
    has_facility : Run → Predicate
    ends_with_runway_token : Predicate
    compound : Predicates → Predicates → Predicates → Predicate

  pub data Predicates : Type 0 where
    nil : Predicates
    cons : Predicate → Predicates → Predicates

-- `any_`, `all_` and `none_`.
pub record Rule (F : Type 0) : Type 0 where
  pub intent : PilotIntent
  pub confidence : F
  pub any_of : Predicates
  pub all_of : Predicates
  pub none_of : Predicates

abbrev german_tokens : List String
german_tokens =
    "links" ∷ "rechts" ∷ "mitte" ∷ "null" ∷ "eins" ∷ "zwo" ∷ "zwei" ∷ "drei" ∷ "vier" ∷ "fuenf"
    ∷ "sechs" ∷ "sieben" ∷ "acht" ∷ "neun" ∷ []

abbrev tens_tokens : List String
tens_tokens =
    "twenty" ∷ "twenty one" ∷ "twenty two" ∷ "twenty three" ∷ "twenty four" ∷ "twenty five"
    ∷ "twenty six" ∷ "twenty seven" ∷ "twenty eight" ∷ "twenty nine" ∷ "thirty" ∷ "thirty one"
    ∷ "thirty two" ∷ "thirty three" ∷ "thirty four" ∷ "thirty five" ∷ "thirty six" ∷ german_tokens

abbrev pub runway_token_suffixes : List String
runway_token_suffixes =
    "left" ∷ "right" ∷ "center" ∷ "one" ∷ "two" ∷ "three" ∷ "four" ∷ "five" ∷ "six" ∷ "seven"
    ∷ "eight" ∷ "nine" ∷ "niner" ∷ "ten" ∷ "eleven" ∷ "twelve" ∷ "thirteen" ∷ "fourteen" ∷ "fifteen"
    ∷ "sixteen" ∷ "seventeen" ∷ "eighteen" ∷ "nineteen" ∷ tens_tokens

unfoldable pub ends_with : Run → Run → Bool
unfolding begins_with
ends_with hay needle = begins_with (reverse needle) (reverse hay)

abbrev or_blank : ℕ → ℕ
or_blank c = if is_alnum c then c else 32

-- The text with blanks for punctuation, between two blanks.
abbrev pub padded : Run → Run
padded t = 32 ∷ (map or_blank t ++ (32 ∷ []))

unfoldable pub holds_facility : Run → Run → Bool
unfolding contains
holds_facility t facility = contains (32 ∷ (facility ++ (32 ∷ []))) (padded t)

-- Does the text end with one of the tokens?
unfoldable pub ends_with_any : List String → Run → Bool
unfolding ends_with
ends_with_any tokens text = any (λ token. ends_with text (codes token)) tokens

unfoldable mutual
  unfolding contains begins_with ends_with holds_facility ends_with_any

  pub eval_predicate : Predicate → Run → Bool
  eval_predicate (containing value) text = contains value text
  eval_predicate (starting_with value) text = begins_with value text
  eval_predicate (ending_with value) text = ends_with text value
  eval_predicate (has_facility value) text = holds_facility text value
  eval_predicate ends_with_runway_token text = ends_with_any runway_token_suffixes text
  eval_predicate (compound any_of all_of none_of) text =
      none_match none_of text && any_match any_of text && all_match all_of text

  -- The loop of `any_match`.
  pub any_from : Predicates → Run → Bool
  any_from nil text = false
  any_from (cons p preds) text = eval_predicate p text || any_from preds text

  -- No predicate is no constraint.
  pub any_match : Predicates → Run → Bool
  any_match nil text = true
  any_match (cons p preds) text = eval_predicate p text || any_from preds text

  pub all_match : Predicates → Run → Bool
  all_match nil text = true
  all_match (cons p preds) text = eval_predicate p text && all_match preds text

  pub none_match : Predicates → Run → Bool
  none_match nil text = true
  none_match (cons p preds) text = not (eval_predicate p text) && none_match preds text

-- One normalisation after the other; an empty pattern is passed over.
unfoldable pub normalize : List (Run × Run) → Run → Run
unfolding replace_run
normalize [] out = out
normalize ((from, to) ∷ rest) out =
    normalize rest (if is_nil from then out else replace_run from to out)

module _ {F : Type 0} where
  unfoldable pub fires : Run → Rule F → Bool
  unfolding eval_predicate any_match all_match none_match
  fires text r = none_match r.none_of text && any_match r.any_of text && all_match r.all_of text

module _ {F : Type 0} ⦃d : Double F⦄ where
  -- The rules of a loaded table; an empty list stands for one that is not loaded.
  unfoldable pub match_rules : List (Rule F) → Run → PilotIntent × F
  unfolding fires
  match_rules rules text = elim (find (fires text) rules) [
    | none ↦ (unknown, whole 0)
    | some r ↦ (r.intent, r.confidence)
  ]
