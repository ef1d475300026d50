-- ===== src/Base/Lists.antt =====
-- Lists measured by native numbers, the algorithms of <algorithm> that the source calls, and
-- predicates on lists.
use Prim.Native.Nat.{ℕ, zero, suc, ◌+◌}
use mathlib.Core.Path.{◌≡◌, refl}
use mathlib.Core.Logic.{◌⊎◌, inl, inr}
use mathlib.Core.Bool.{Bool, true, false, ◌||◌, ◌&&◌}
use mathlib.Core.List.{List, [], ◌∷◌, ◌++◌}
use mathlib.Core.Option.{Option, none, some}
use native.Mathlib.Omega.{arith}
use xp_wellys_devfr_atc.Base.Tests.{if◌then◌else◌, Bool-cases}

module _ {ℓ} {A : Type ℓ} where
  abbrev pub length : List A → ℕ
  length [] = 0
  length (x ∷ xs) = suc (length xs)

  abbrev pub any : (A → Bool) → List A → Bool
  any p [] = false
  any p (x ∷ xs) = p x || any p xs

  abbrev pub all : (A → Bool) → List A → Bool
  all p [] = true
  all p (x ∷ xs) = p x && all p xs

  -- The first element that passes the test: the search loops of the source.
  abbrev pub find : (A → Bool) → List A → Option A
  find p [] = none
  find p (x ∷ xs) = if p x then some x else find p xs

  abbrev pub keep : (A → Bool) → List A → List A
  keep p [] = []
  keep p (x ∷ xs) = let rest = keep p xs in if p x then x ∷ rest else rest

  abbrev pub get_elem? : List A → ℕ → Option A
  get_elem? [] i = none
  get_elem? (x ∷ xs) zero = some x
  get_elem? (x ∷ xs) (suc i) = get_elem? xs i

  pub length-append : (xs ys : List A) → length (xs ++ ys) ≡ length xs + length ys
  length-append [] ys = omega arith
  length-append (x ∷ xs) ys = omega (arith, length-append xs ys)

abbrev pub All {ℓ κ} : {A : Type ℓ} → (A → Type κ) → List A → Type κ
All P [] = Unit
All P (x ∷ xs) = P x × All P xs

-- Nothing passes and nothing is found, or the one that is found passes.
pub find-cases {ℓ} :
    {A : Type ℓ} (p : A → Bool) (xs : List A)
    → ((any p xs ≡ false) × (find p xs ≡ none))
      ⊎ (i : ℕ) × (x : A) × (any p xs ≡ true)
        × (find p xs ≡ some x)
        × (get_elem? xs i ≡ some x)
        × (p x ≡ true)
find-cases p [] = inl (refl, refl)
find-cases p (x ∷ xs) = elim (Bool-cases (p x)) [
  | inl e ↦ inr (0, x, rw e refl, rw e refl, refl, e)
  | inr e ↦ elim (find-cases p xs) [
    | inl (a, f) ↦ inl (rw e a, rw e f)
    | inr (i, y, a, f, g, h) ↦ inr (suc i, y, rw e a, rw e f, g, h)
  ]
]
