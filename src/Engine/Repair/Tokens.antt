-- ===== src/Engine/Repair/Tokens.antt =====
-- The digit groups of a repaired transcript, counted.
use xp_wellys_devfr_atc.Base.{
  ℕ, suc, ◌≤◌, ◌≡◌, ◌↔◌, inl, inr, refl, true, false, List, [], ◌∷◌, Bool-cases, if◌then◌else◌,
  arith,
}
use xp_wellys_devfr_atc.Base.Runs.{Run, run_eq, run_eq→eq, run_eq_refl}
use xp_wellys_devfr_atc.Engine.Repair.{
  extract_digit_tokens, has_token, erase_token, invents_from, repair_invents_digits,
}

-- How often the group occurs.
abbrev pub count : Run → List Run → ℕ
count t [] = 0
count t (u ∷ tokens) = let rest = count t tokens in if run_eq u t then suc rest else rest

count-erase_token :
    (t u : Run) (tokens : List Run)
    → has_token u tokens ≡ true
    → count t tokens ≡ (
        if run_eq u t then suc (count t (erase_token u tokens)) else count t (erase_token u tokens))
count-erase_token t u [] h = absurd (ground arith)
count-erase_token t u (x ∷ tokens) h = elim (Bool-cases (run_eq x u)) [
  | inl e ↦ rw (e, run_eq→eq x u e) refl
  | inr e ↦ let ih = count-erase_token t u tokens (ground arith) in rw e (ground (arith, ih))
]

has_token-count : (t : Run) (tokens : List Run) → 1 ≤ count t tokens → has_token t tokens ≡ true
has_token-count t [] h = absurd (omega arith)
has_token-count t (x ∷ tokens) h = ground (arith, has_token-count t tokens)

invents_from→le :
    (repaired left : List Run)
    → invents_from repaired left ≡ false
    → (t : Run) → count t repaired ≤ count t left
unfolding invents_from
invents_from→le [] left h t = omega arith
invents_from→le (u ∷ repaired) left h t = elim (Bool-cases (has_token u left)) [
  | inr e ↦ absurd (ground arith)
  | inl e ↦
      let split = count-erase_token t u left e in
      let ih = invents_from→le repaired (erase_token u left) (ground arith) t in
      ground (arith, split, ih)
]

le→invents_from :
    (repaired left : List Run)
    → ((t : Run) → count t repaired ≤ count t left)
    → invents_from repaired left ≡ false
unfolding invents_from
le→invents_from [] left h = refl
le→invents_from (u ∷ repaired) left h =
    let one = h u in
    let e = has_token-count u left (ground (arith, run_eq_refl u, one)) in
    let ih = le→invents_from repaired (erase_token u left) (λ t.
      (let split = count-erase_token t u left e in
        let here = h t in ground (arith, split, here))) in
    ground (arith, e, ih)

-- A repair is taken to invent digits exactly if some group of digits occurs in it more often than in
-- the original transcript.
pub repair_invents_digits_iff :
    (original repaired : Run)
    → (repair_invents_digits original repaired ≡ false) ↔ (
        (t : Run)
        → count t (extract_digit_tokens repaired) ≤ count t (extract_digit_tokens original))
unfolding repair_invents_digits
repair_invents_digits_iff original repaired = (
  invents_from→le (extract_digit_tokens repaired) (extract_digit_tokens original),
  le→invents_from (extract_digit_tokens repaired) (extract_digit_tokens original),
)
