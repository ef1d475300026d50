-- ===== src/RunwayChoice/Calm.antt =====
-- The runway in calm wind.
use mathlib.Core.Path.{subst}
use xp_wellys_devfr_atc.Base.{
  ℕ, zero, suc, ◌≡◌, ◌⊎◌, inl, inr, refl, sym, Bool, true, false, not, ◌&&◌, ◌||◌, some, List, [],
  ◌∷◌, get_elem?, All, Bool-cases, bool_eq, arith, if◌then◌else◌,
}
use xp_wellys_devfr_atc.Double.{Double, IsOrdered, ◌<?◌, whole}
use xp_wellys_devfr_atc.Context.{RunwayInfo}
use xp_wellys_devfr_atc.RunwayChoice.{is_paved, is_before, longest_from, select_active_runway}

module _ {F : Type 0} ⦃d : Double F⦄ where
  -- Is it paved where the other is not, or as the other, and longer?
  abbrev outranks : RunwayInfo F → RunwayInfo F → Bool
  outranks a b =
      (is_paved a.surface_code && not (is_paved b.surface_code))
      || (bool_eq (is_paved a.surface_code) (is_paved b.surface_code) && b.length_m <? a.length_m)

  abbrev pub Unbeaten : RunwayInfo F → List (RunwayInfo F) → Type 0
  Unbeaten b runways = All (λ (a : RunwayInfo F). outranks a b ≡ false) runways

module _ {F : Type 0} ⦃d : Double F⦄ (ordered : IsOrdered F) where
  outranks_self : (a : RunwayInfo F) → outranks a a ≡ false
  outranks_self a = ground (arith, ordered.lt_irrefl a.length_m)

  outranks_trans :
      (a b c : RunwayInfo F) → outranks b c ≡ true → outranks a c ≡ false → outranks a b ≡ false
  outranks_trans a b c h k = ground (arith, ordered.lt_trans c.length_m b.length_m a.length_m)

  All-outranks :
      (b c : RunwayInfo F) (runways : List (RunwayInfo F))
      → outranks b c ≡ true
      → Unbeaten c runways
      → Unbeaten b runways
  All-outranks b c [] h k = tt
  All-outranks b c (a ∷ runways) h k = (outranks_trans a b c h k.0, All-outranks b c runways h k.1)

  longest_from-Unbeaten :
      (rest : List (RunwayInfo F)) (best : RunwayInfo F) (seen : List (RunwayInfo F))
      → Unbeaten best seen
      → Unbeaten (longest_from best rest) seen × Unbeaten (longest_from best rest) rest
  unfolding longest_from
  longest_from-Unbeaten [] best seen h = (h, tt)
  longest_from-Unbeaten (rwy ∷ rest) best seen h =
      let Kept = λ (b : Bool).
        let best' = longest_from (if b then rwy else best) rest in
        Unbeaten best' seen × Unbeaten best' (rwy ∷ rest) in
      elim (Bool-cases (outranks rwy best)) [
        | inl j ↦
            let later =
              longest_from-Unbeaten rest rwy (rwy ∷ seen)
                (outranks_self rwy, All-outranks rwy best seen j h) in
            subst Kept (sym j) (later.0.1, (later.0.0, later.1))
        | inr j ↦
            let later = longest_from-Unbeaten rest best (rwy ∷ seen) (j, h) in
            subst Kept (sym j) (later.0.1, (later.0.0, later.1))
      ]

module _ {F : Type 0} ⦃d : Double F⦄ where
  -- An entry of a list but for its second.
  skip_second :
      {a b c : RunwayInfo F} (rest : List (RunwayInfo F)) (i : ℕ)
      → get_elem? (a ∷ rest) i ≡ some c
      → (k : ℕ) × (get_elem? (a ∷ b ∷ rest) k ≡ some c)
  skip_second rest zero e = (0, e)
  skip_second rest (suc i) e = (suc (suc i), e)

  longest_from-get_elem? :
      (rest : List (RunwayInfo F)) (best : RunwayInfo F)
      → (i : ℕ) × (get_elem? (best ∷ rest) i ≡ some (longest_from best rest))
  unfolding longest_from
  longest_from-get_elem? [] best = (0, refl)
  longest_from-get_elem? (rwy ∷ rest) best = elim (Bool-cases (outranks rwy best)) [
    | inl j ↦ let (i, e) = longest_from-get_elem? rest rwy in rw j (suc i, e)
    | inr j ↦ let (i, e) = longest_from-get_elem? rest best in rw j (skip_second rest i e)
  ]

module _ {F : Type 0} ⦃d : Double F⦄ (ordered : IsOrdered F) where
  -- In a wind below three knots the runway in use is the end of a runway of the list that no other
  -- outranks: it is paved if any is, and no runway of its kind is longer. The end is the one whose
  -- name does not come after the other's.
  pub select_active_runway-Unbeaten :
      (rwy : RunwayInfo F) (rest : List (RunwayInfo F)) (wind_dir wind_speed : F)
      → (wind_speed <? whole 3) ≡ true
      → let runways = rwy ∷ rest in
        let name = select_active_runway runways wind_dir wind_speed in
        (i : ℕ) × (best : RunwayInfo F) × (get_elem? runways i ≡ some best)
        × Unbeaten best runways
        × (((name ≡ best.end1.number) × (is_before best.end1.number best.end2.number ≡ true))
            ⊎ ((name ≡ best.end2.number) × (is_before best.end1.number best.end2.number ≡ false)))
  unfolding select_active_runway
  select_active_runway-Unbeaten rwy rest wind_dir wind_speed calm =
      let best = longest_from rwy rest in
      let (i, found) = longest_from-get_elem? rest rwy in
      let (first, others) =
        longest_from-Unbeaten ordered rest rwy (rwy ∷ []) (outranks_self ordered rwy, tt) in
      elim (Bool-cases (is_before best.end1.number best.end2.number)) [
        | inl e ↦ rw (calm, e) (i, best, found, (first.0, others), inl (refl, e))
        | inr e ↦ rw (calm, e) (i, best, found, (first.0, others), inr (refl, e))
      ]
