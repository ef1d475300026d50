-- ===== src/Phraseology/Spoken/Runway.antt =====
-- A runway that is spelled is understood.
use xp_wellys_devfr_atc.Base.{
  ℕ, ◌<◌, ◌≤◌, ◌≡◌, refl, Bool, true, List, [], ◌∷◌, ◌++◌, map, length, All, arith,
}
use xp_wellys_devfr_atc.Base.Runs.{Run, codes, run_eq, run_eq→eq}
use xp_wellys_devfr_atc.Base.Scan.{rewrite}
use xp_wellys_devfr_atc.Phraseology.Passes.{runway_number}
use xp_wellys_devfr_atc.Phraseology.Spoken.{parse_spoken_number}
use xp_wellys_devfr_atc.Phraseology.Spoken.RoundTrip.{below, below_sound, digit_char}

-- The runway of these digits.
abbrev pub piste : List ℕ → Run
piste xs = codes "Piste " ++ map digit_char xs

abbrev is_understood : List ℕ → Bool
is_understood xs = run_eq (parse_spoken_number (rewrite runway_number (piste xs))) (piste xs)

one_digit : below 10 (λ x. is_understood (x ∷ [])) ≡ true
unfolding below rewrite runway_number parse_spoken_number
one_digit = refl

two_digits : below 10 (λ x. below 10 (λ y. is_understood (x ∷ y ∷ []))) ≡ true
unfolding below rewrite runway_number parse_spoken_number
two_digits = refl

-- The pass that spells runway numbers is undone by the pilot's side: a runway of one or two digits
-- comes back as it was written.
pub parse_spoken_number-runway_number :
    (xs : List ℕ)
    → All (λ x. x < 10) xs
    → 1 ≤ length xs
    → length xs ≤ 2
    → parse_spoken_number (rewrite runway_number (piste xs)) ≡ piste xs
parse_spoken_number-runway_number [] h k l = absurd (omega arith)
parse_spoken_number-runway_number (x ∷ []) h k l =
    run_eq→eq _ _ (below_sound 10 (λ x. is_understood (x ∷ [])) x one_digit h.0)
parse_spoken_number-runway_number (x ∷ y ∷ []) h k l =
    let row = below_sound 10 (λ x. below 10 (λ y. is_understood (x ∷ y ∷ []))) x two_digits h.0 in
    run_eq→eq _ _ (below_sound 10 (λ y. is_understood (x ∷ y ∷ [])) y row h.1.0)
parse_spoken_number-runway_number (x ∷ y ∷ z ∷ xs) h k l = absurd (omega arith)
