-- ===== src/Radio/Lookup.antt =====
-- The facility that a frequency reaches.
use mathlib.Core.Path.{subst}
use xp_wellys_devfr_atc.Base.{
  ℕ, ◌≤◌, ◌≡◌, ◌⊎◌, inl, inr, refl, sym, Bool, true, false, ◌&&◌, Option, none, some, [], ◌∷◌, All,
  any, Bool-cases, arith,
}
use xp_wellys_devfr_atc.Double.{Double, lit, mul}
use xp_wellys_devfr_atc.Radio.{
  FrequencyType, frequency_eq, AirportFrequency, AirportFrequencies, in_tolerance, outranks,
  priority_rank, lookup_from, lookup,
}

abbrev pub Best : ℕ → AirportFrequencies → FrequencyType → Type 0
Best target fs r =
    All
      (λ (f : AirportFrequency).
        in_tolerance target f ≡ true → priority_rank f.type ≤ priority_rank r)
      fs

abbrev better : ℕ → AirportFrequency → Option ℕ → Bool
better target f best_rank = in_tolerance target f && outranks (priority_rank f.type) best_rank

step_better :
    (target : ℕ) (best : FrequencyType) (best_rank : Option ℕ) (f : AirportFrequency)
    (all : AirportFrequencies)
    → better target f best_rank ≡ true
    → lookup_from target best best_rank (f ∷ all)
      ≡ lookup_from target f.type (some (priority_rank f.type)) all
unfolding lookup_from
step_better target best best_rank f all e = rw e refl

step_worse :
    (target : ℕ) (best : FrequencyType) (best_rank : Option ℕ) (f : AirportFrequency)
    (all : AirportFrequencies)
    → better target f best_rank ≡ false
    → lookup_from target best best_rank (f ∷ all) ≡ lookup_from target best best_rank all
unfolding lookup_from
step_worse target best best_rank f all e = rw e refl

-- The rank of the best so far: none yet, or its own.
abbrev Ranked : FrequencyType → Option ℕ → Type 0
Ranked best none = priority_rank best ≡ 0
Ranked best (some r) = r ≡ priority_rank best

improves :
    (target : ℕ) (f : AirportFrequency) (best : FrequencyType) (best_rank : Option ℕ)
    → Ranked best best_rank
    → better target f best_rank ≡ true
    → priority_rank best ≤ priority_rank f.type
improves target f best none h e = omega (arith, h)
improves target f best (some r) h e = ground arith

outranked :
    (target : ℕ) (f : AirportFrequency) (best : FrequencyType) (best_rank : Option ℕ)
    → Ranked best best_rank
    → better target f best_rank ≡ false
    → in_tolerance target f ≡ true
    → priority_rank f.type ≤ priority_rank best
outranked target f best none h e k = absurd (ground arith)
outranked target f best (some r) h e k = ground arith

lookup_from-Best :
    (target : ℕ) (best : FrequencyType) (best_rank : Option ℕ) (all : AirportFrequencies)
    → Ranked best best_rank
    → (priority_rank best ≤ priority_rank (lookup_from target best best_rank all))
      × Best target all (lookup_from target best best_rank all)
unfolding lookup_from
lookup_from-Best target best best_rank [] h = (omega arith, tt)
lookup_from-Best target best best_rank (f ∷ all) h = elim (Bool-cases (better target f best_rank)) [
  | inl e ↦
      let ih = lookup_from-Best target f.type (some (priority_rank f.type)) all refl in
      let up = improves target f best best_rank h e in
      subst (λ r. (priority_rank best ≤ priority_rank r) × Best target (f ∷ all) r)
        (sym (step_better target best best_rank f all e))
        (omega (arith, up, ih.0), (λ _. ih.0, ih.1))
  | inr e ↦
      let ih = lookup_from-Best target best best_rank all h in
      subst (λ r. (priority_rank best ≤ priority_rank r) × Best target (f ∷ all) r)
        (sym (step_worse target best best_rank f all e))
        (
          ih.0,
          (λ k. let up = outranked target f best best_rank h e k in omega (arith, up, ih.0), ih.1),
        )
]

-- The type is that of an entry within tolerance.
abbrev pub heard : ℕ → AirportFrequencies → FrequencyType → Bool
heard target all r = any (λ f. in_tolerance target f && frequency_eq f.type r) all

first_heard :
    (target : ℕ) (f : AirportFrequency) (all : AirportFrequencies) (r : FrequencyType)
    (best_rank : Option ℕ)
    → better target f best_rank ≡ true
    → r ≡ f.type
    → heard target (f ∷ all) r ≡ true
first_heard target f all r best_rank e k = rw k (ground arith)

lookup_from-heard :
    (target : ℕ) (best : FrequencyType) (best_rank : Option ℕ) (all : AirportFrequencies)
    → (lookup_from target best best_rank all ≡ best)
      ⊎ (heard target all (lookup_from target best best_rank all) ≡ true)
unfolding lookup_from
lookup_from-heard target best best_rank [] = inl refl
lookup_from-heard target best best_rank (f ∷ all) = elim (Bool-cases (better target f best_rank)) [
  | inl e ↦
      subst (λ r. (r ≡ best) ⊎ (heard target (f ∷ all) r ≡ true))
        (sym (step_better target best best_rank f all e))
        (elim (lookup_from-heard target f.type (some (priority_rank f.type)) all) [
          | inl k ↦ inr (first_heard target f all _ best_rank e k)
          | inr k ↦ inr (ground (arith, k))
        ])
  | inr e ↦
      subst (λ r. (r ≡ best) ⊎ (heard target (f ∷ all) r ≡ true))
        (sym (step_worse target best best_rank f all e))
        (elim (lookup_from-heard target best best_rank all) [
          | inl k ↦ inl k
          | inr k ↦ inr (ground (arith, k))
        ])
]

module _ {F : Type 0} ⦃d : Double F⦄ where
  -- A tuned frequency reaches a facility of the highest priority among the airport's entries within one
  -- kilohertz: the answer is the type of such an entry, or unknown, and no such entry outranks it.
  pub lookup-Best :
      (all : AirportFrequencies) (freq_mhz : F)
      → let target = d.to_nat (d.round (mul freq_mhz (lit 1000 0))) in
        let r = lookup all freq_mhz in
        ((r ≡ FrequencyType.unknown) ⊎ (heard target all r ≡ true)) × Best target all r
  unfolding lookup priority_rank
  lookup-Best all freq_mhz = (
    lookup_from-heard _ FrequencyType.unknown none all,
    (lookup_from-Best _ FrequencyType.unknown none all refl).1,
  )
