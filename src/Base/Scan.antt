-- ===== src/Base/Scan.antt =====
-- The loops that walk a sequence by index, look ahead, and put something else in place of what they
-- have matched: a rule sees the element before and the rest, and answers what to put and how many
-- elements it has used; without an answer one element is copied.
use Prim.Native.Nat.{ℕ, zero, suc, pred}
use mathlib.Core.Bool.{Bool, true, not}
use mathlib.Core.List.{List, [], ◌∷◌, ◌++◌}
use mathlib.Core.Option.{Option, none, some}
use xp_wellys_devfr_atc.Base.Tests.{if◌then◌else◌}
use xp_wellys_devfr_atc.Base.Runs.{Run, is_alnum}

abbrev pub Rule {ℓ} : Type ℓ → Type ℓ → Type ℓ
Rule A B = Option A → List A → Option (List B × ℕ)

unfoldable pub scan {ℓ} : {A B : Type ℓ} → Rule A B → (A → B) → Option A → ℕ → List A → List B
scan rule copy prev skip [] = []
scan rule copy prev (suc skip) (c ∷ s) = scan rule copy (some c) skip s
scan rule copy prev zero (c ∷ s) = elim (rule prev (c ∷ s)) [
  | none ↦ copy c ∷ scan rule copy (some c) zero s
  | some (out, used) ↦ out ++ scan rule copy (some c) (pred used) s
]

unfoldable pub rewrite : Rule ℕ ℕ → Run → Run
unfolding scan
rewrite rule s = scan rule (λ c. c) none zero s

-- What stands at the front and passes the test, and the rest.
unfoldable pub span {ℓ} : {A : Type ℓ} → (A → Bool) → List A → List A × List A
span p [] = ([], [])
span p (c ∷ s) = let (front, rest) = span p s in if p c then (c ∷ front, rest) else ([], c ∷ s)

abbrev pub drop {ℓ} : {A : Type ℓ} → ℕ → List A → List A
drop zero s = s
drop (suc n) [] = []
drop (suc n) (c ∷ s) = drop n s

abbrev pub take {ℓ} : {A : Type ℓ} → ℕ → List A → List A
take zero s = []
take (suc n) [] = []
take (suc n) (c ∷ s) = c ∷ take n s

abbrev pub replicate {ℓ} : {A : Type ℓ} → ℕ → A → List A
replicate zero a = []
replicate (suc n) a = a ∷ replicate n a

-- No letter or digit directly before, and none at the front.
abbrev pub boundary_before : Option ℕ → Bool
boundary_before none = true
boundary_before (some c) = not (is_alnum c)

abbrev pub boundary_after : Run → Bool
boundary_after [] = true
boundary_after (c ∷ s) = not (is_alnum c)
