-- ===== src/OpenAir/Innermost.antt =====
-- The innermost airspace.
use xp_wellys_devfr_atc.Base.{
  ℕ, zero, suc, ◌≡◌, ◌⊎◌, inl, inr, refl, Bool, true, false, ◌&&◌, none, some, List, [], ◌∷◌,
  get_elem?, All, Bool-cases, arith,
}
use xp_wellys_devfr_atc.Double.{Double, IsOrdered, ◌<?◌}
use xp_wellys_devfr_atc.OpenAir.{
  Entry, Db, contains, innermost_from, find_enclosing, all_from, find_all_enclosing, no_airspace,
  entry_of,
}

module _ {F : Type 0} ⦃d : Double F⦄ (lat lon alt_ft : F) where
  -- Does it contain the point, and is it smaller?
  abbrev beats : Entry F → Entry F → Bool
  beats e best = contains e lat lon alt_ft && e.bbox_area <? best.bbox_area

  abbrev pub Unbeaten : Entry F → List (Entry F) → Type 0
  Unbeaten best es = All (λ (e : Entry F). beats e best ≡ false) es

-- An entry of a list but for its second.
skip_second :
    {A : Type 0} {a b c : A} (rest : List A) (i : ℕ)
    → get_elem? (a ∷ rest) i ≡ some c
    → (k : ℕ) × (get_elem? (a ∷ b ∷ rest) k ≡ some c)
skip_second rest zero e = (0, e)
skip_second rest (suc i) e = (suc (suc i), e)

module _ {F : Type 0} ⦃d : Double F⦄ (ordered : IsOrdered F) (lat lon alt_ft : F) where
  All-beats :
      (a b : Entry F) (es : List (Entry F))
      → beats lat lon alt_ft b a ≡ true
      → Unbeaten lat lon alt_ft a es
      → Unbeaten lat lon alt_ft b es
  All-beats a b [] h k = tt
  All-beats a b (e ∷ es) h k =
      let head = k.0 in
      let here : beats lat lon alt_ft e b ≡ false =
        ground (arith, ordered.lt_trans e.bbox_area b.bbox_area a.bbox_area) in
      (here, All-beats a b es h k.1)

  beats_self : (e : Entry F) → beats lat lon alt_ft e e ≡ false
  beats_self e = ground (arith, ordered.lt_irrefl e.bbox_area)

  -- What the loop makes of a best entry: a later one, or the same, that none of both lists beats.
  abbrev Result : Entry F → List (Entry F) → List (Entry F) → Type 0
  Result best es seen =
      (i : ℕ) × (r : Entry F) × (innermost_from lat lon alt_ft (some best) es ≡ some r)
      × (get_elem? (best ∷ es) i ≡ some r)
      × (contains r lat lon alt_ft ≡ true)
      × Unbeaten lat lon alt_ft r seen
      × Unbeaten lat lon alt_ft r es

  innermost_from-Result :
      (es : List (Entry F)) (best : Entry F) (seen : List (Entry F))
      → contains best lat lon alt_ft ≡ true
      → Unbeaten lat lon alt_ft best seen
      → Result best es seen
  unfolding innermost_from
  innermost_from-Result [] best seen c h = (0, best, refl, refl, c, h, tt)
  innermost_from-Result (e ∷ es) best seen c h = elim (Bool-cases (beats lat lon alt_ft e best)) [
    | inl j ↦
        let inside : contains e lat lon alt_ft ≡ true = ground arith in
        let (i, r, found, at, c', all, rest) =
          innermost_from-Result es e (e ∷ seen) inside (beats_self e, All-beats best e seen j h) in
        rw j (suc i, r, found, at, c', all.1, (all.0, rest))
    | inr j ↦
        let (i, r, found, at, c', all, rest) = innermost_from-Result es best (e ∷ seen) c (j, h) in
        let (k, at') = skip_second es i at in rw j (k, r, found, at', c', all.1, (all.0, rest))
  ]

  -- What the loop finds in the list: nothing, where no entry contains the point, or the innermost.
  abbrev pub Outcome : List (Entry F) → Type 0
  Outcome es =
      ((innermost_from lat lon alt_ft none es ≡ none) × (all_from lat lon alt_ft es ≡ []))
      ⊎ (i : ℕ) × (r : Entry F) × (innermost_from lat lon alt_ft none es ≡ some r)
        × (get_elem? es i ≡ some r)
        × (contains r lat lon alt_ft ≡ true)
        × Unbeaten lat lon alt_ft r es

  innermost_from-Outcome : (es : List (Entry F)) → Outcome es
  unfolding innermost_from all_from
  innermost_from-Outcome [] = inl (refl, refl)
  innermost_from-Outcome (e ∷ es) = elim (Bool-cases (contains e lat lon alt_ft)) [
    | inl j ↦
        let (i, r, found, at, c, all, rest) =
          innermost_from-Result es e (e ∷ []) j (beats_self e, tt) in
        inr (i, r, rw j found, at, c, (all.0, rest))
    | inr j ↦ elim (innermost_from-Outcome es) [
      | inl (found, empty) ↦ inl (rw j found, rw j empty)
      | inr (i, r, found, at, c, rest) ↦
          inr (suc i, r, rw j found, at, c, (ground (arith, j), rest))
    ]
  ]

  -- In a database that is ready, either no airspace contains the point, and both queries say so; or
  -- the answer is an airspace of the database that contains the point, and none that contains it has
  -- a smaller box. The order of doubles is assumed.
  pub find_enclosing-Unbeaten :
      (db : Db F)
      → db.is_ready ≡ true
      → ((find_enclosing db lat lon alt_ft ≡ no_airspace)
          × (find_all_enclosing db lat lon alt_ft ≡ []))
        ⊎ (i : ℕ) × (e : Entry F) × (find_enclosing db lat lon alt_ft ≡ entry_of e)
          × (get_elem? db.entries i ≡ some e)
          × (contains e lat lon alt_ft ≡ true)
          × Unbeaten lat lon alt_ft e db.entries
  unfolding find_enclosing find_all_enclosing
  find_enclosing-Unbeaten db ready = elim (innermost_from-Outcome db.entries) [
    | inl (found, empty) ↦ inl (rw (ready, found) refl, rw ready empty)
    | inr (i, e, found, at, c, rest) ↦ inr (i, e, rw (ready, found) refl, at, c, rest)
  ]
