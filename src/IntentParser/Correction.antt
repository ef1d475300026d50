-- ===== src/IntentParser/Correction.antt =====
-- `strip_self_correction` (src/atc/intent_parser.cpp).
use xp_wellys_devfr_atc.Base.{
  Bool, not, ◌&&◌, ◌||◌, Option, none, some, [], ◌∷◌, ◌==◌, length, reverse, if◌then◌else◌,
}
use xp_wellys_devfr_atc.Base.Runs.{Run, codes, run_eq, is_nil, begins_with}
use xp_wellys_devfr_atc.Base.Scan.{span, drop}
use xp_wellys_devfr_atc.IntentRules.{ends_with}

-- `rfind`: what is before the last occurrence, and what behind it.
unfoldable pub around_last : Run → Run → Option (Run × Run)
unfolding begins_with
around_last word [] = none
around_last word (c ∷ s) = elim (around_last word s) [
  | some (before, behind) ↦ some (c ∷ before, behind)
  | none ↦ if begins_with word (c ∷ s) then some ([], drop (length word) (c ∷ s)) else none
]

-- Without the punctuation at the end.
unfoldable pub trimmed : Run → Run
unfolding span
trimmed s = reverse (span (λ c. c == 32 || c == b',' || c == b'.' || c == 9) (reverse s)).1

unfoldable pub is_negation : Run → Bool
unfolding ends_with
is_negation prefix =
    is_nil prefix
    || run_eq prefix (codes "no")
    || run_eq prefix (codes "negative")
    || ends_with prefix (codes " no")
    || ends_with prefix (codes " negative")

-- What follows the last "correction", unless it rejects a clearance or ends the text.
unfoldable pub strip_self_correction : Run → Run
unfolding around_last trimmed is_negation span
strip_self_correction text = elim (around_last (codes "correction") text) [
  | none ↦ text
  | some (before, behind) ↦
      let stripped = (span (λ c. c == b',' || c == 32 || c == b'.') behind).1 in
      if not (is_nil stripped) && not (is_negation (trimmed before)) then stripped else text
]
