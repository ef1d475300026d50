-- ===== src/Engine/Repair.antt =====
-- The checks on a transcript that the language model has repaired (src/atc/engine.cpp).
pub mod Tokens
use xp_wellys_devfr_atc.Base.{
  Bool, true, false, not, ◌||◌, String, List, [], ◌∷◌, any, is_empty, if◌then◌else◌,
}
use xp_wellys_devfr_atc.Base.Runs.{Run, codes, run_eq, is_digit, to_lower, contains, tokens_from}

unfoldable pub extract_digit_tokens : Run → List Run
unfolding tokens_from
extract_digit_tokens s = tokens_from is_digit [] s

-- `std::find(…) != end` on the tokens.
abbrev pub has_token : Run → List Run → Bool
has_token t tokens = any (λ u. run_eq u t) tokens

-- `tokens.erase(find(t))`.
abbrev pub erase_token : Run → List Run → List Run
erase_token t [] = []
erase_token t (u ∷ tokens) = if run_eq u t then tokens else u ∷ erase_token t tokens

-- The loop over (repaired tokens, tokens of the original that are left).
unfoldable pub invents_from : List Run → List Run → Bool
invents_from [] left = false
invents_from (t ∷ repaired) left =
    let rest = invents_from repaired (erase_token t left) in
    if not (has_token t left) then true else rest

unfoldable pub repair_invents_digits : Run → Run → Bool
unfolding extract_digit_tokens invents_from
repair_invents_digits original repaired =
    invents_from (extract_digit_tokens repaired) (extract_digit_tokens original)

abbrev pub forbidden : List String
forbidden =
    "cleared for takeoff" ∷ "clear for takeoff" ∷ "ready for departure" ∷ "ready for take"
    ∷ "line up" ∷ []

unfoldable pub repair_violates_history : String → Bool → Bool
repair_violates_history repaired just_landed_flag =
    if not just_landed_flag || is_empty repaired
    then false
    else any (λ needle. contains (codes needle) (to_lower (codes repaired))) forbidden
