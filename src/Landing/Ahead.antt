-- ===== src/Landing/Ahead.antt =====
-- The aircraft ahead of the user.
use xp_wellys_devfr_atc.Base.{
  ℕ, suc, ◌+◌, ◌≡◌, ◌⊎◌, inl, inr, refl, ◌∙◌, ap, true, false, none, some, List, [], ◌∷◌, get_elem?,
  All, Bool-cases, arith,
}
use xp_wellys_devfr_atc.Double.{Double, ◌<?◌}
use xp_wellys_devfr_atc.Traffic.{TrafficTarget, TrafficContext, final, traffic_phase_eq}
use xp_wellys_devfr_atc.Landing.{
  ActiveRunway, UserPosition, FinalEntry, entry_lt, insert_entry, sort_entries, user_index,
  follow_of, collect_finals, sorted_finals, distance_to_threshold_nm, compute_landing_sequence,
}

module _ {F : Type 0} ⦃d : Double F⦄ where
  All-insert :
      (P : FinalEntry F → Type 0) (e : FinalEntry F) (es : List (FinalEntry F))
      → P e
      → All P es
      → All P (insert_entry e es)
  unfolding insert_entry
  All-insert P e [] h k = (h, tt)
  All-insert P e (x ∷ xs) h k = elim (Bool-cases (entry_lt x e)) [
    | inl j ↦ rw j (k.0, All-insert P e xs h k.1)
    | inr j ↦ rw j (h, k)
  ]

  All-sort :
      (P : FinalEntry F → Type 0) (es : List (FinalEntry F)) → All P es → All P (sort_entries es)
  unfolding sort_entries
  All-sort P [] h = tt
  All-sort P (e ∷ es) h = All-insert P e (sort_entries es) h.0 (All-sort P es h.1)

module _ {F : Type 0} ⦃d : Double F⦄ (targets : List (TrafficTarget F)) (rwy : ActiveRunway F) where
  -- The entry is that of an aircraft on final.
  abbrev IsEntry : FinalEntry F → Type 0
  IsEntry e =
      (t : TrafficTarget F) × (get_elem? targets e.source_idx ≡ some t)
      × (traffic_phase_eq t.phase final ≡ true)
      × (distance_to_threshold_nm t.lat t.lon rwy ≡ e.dist_nm)

  collect_finals-IsEntry :
      (i : ℕ) (ts : List (TrafficTarget F))
      → ((k : ℕ) → get_elem? targets (i + k) ≡ get_elem? ts k)
      → All IsEntry (collect_finals rwy i ts)
  unfolding collect_finals
  collect_finals-IsEntry i [] h = tt
  collect_finals-IsEntry i (t ∷ ts) h =
      let here : get_elem? targets i ≡ some t = ap (get_elem? targets) (omega arith) ∙ h 0 in
      let rest =
        collect_finals-IsEntry (suc i) ts (λ k. ap (get_elem? targets) (omega arith) ∙ h (suc k)) in
      elim (Bool-cases (traffic_phase_eq t.phase final)) [
        | inl e ↦ rw e ((t, here, e, refl), rest)
        | inr e ↦ rw e rest
      ]

  -- The last entry that is no farther than the user.
  user_index-ahead :
      (u : F) (es : List (FinalEntry F))
      → All IsEntry es
      → (user_index u es ≡ 0)
        ⊎ (i : ℕ) × (e : FinalEntry F) × (user_index u es ≡ suc i)
          × (get_elem? es i ≡ some e)
          × ((u <? e.dist_nm) ≡ false)
          × IsEntry e
  unfolding user_index
  user_index-ahead u [] h = inl refl
  user_index-ahead u (e ∷ es) h = elim (Bool-cases (u <? e.dist_nm)) [
    | inl k ↦ inl (rw k refl)
    | inr k ↦ elim (user_index-ahead u es h.1) [
      | inl z ↦ inr (0, e, rw k (ap suc z), refl, k, h.0)
      | inr (i, e', s, g, f, entry) ↦ inr (suc i, e', rw k (ap suc s), g, f, entry)
    ]
  ]

module _ {F : Type 0} ⦃d : Double F⦄ where
  -- The first in the sequence follows nobody. Anyone else is given an aircraft to follow: one of the
  -- snapshot, on final, and no farther from the threshold than the user.
  pub follow_target-ahead :
      (traffic : TrafficContext F) (user : UserPosition F) (rwy : ActiveRunway F)
      → let r = compute_landing_sequence traffic user rwy in
        ((r.user_position ≡ 1) × (r.follow_target ≡ none))
        ⊎ (n : ℕ) × (i : ℕ) × (t : TrafficTarget F) × (r.user_position ≡ suc (suc n))
          × (r.follow_target ≡ some t)
          × (get_elem? traffic.targets i ≡ some t)
          × (traffic_phase_eq t.phase final ≡ true)
          × ((distance_to_threshold_nm user.lat user.lon rwy
                <? distance_to_threshold_nm t.lat t.lon rwy)
              ≡ false)
  unfolding compute_landing_sequence sorted_finals follow_of
  follow_target-ahead traffic user rwy =
      let u = distance_to_threshold_nm user.lat user.lon rwy in
      let entries = All-sort (IsEntry traffic.targets rwy) (collect_finals rwy 0 traffic.targets) (
        collect_finals-IsEntry traffic.targets rwy 0 traffic.targets
          (λ k. ap (get_elem? traffic.targets) (omega arith))) in
      elim (user_index-ahead traffic.targets rwy u (sorted_finals traffic rwy) entries) [
        | inl z ↦ inl (ap suc z, rw z refl)
        | inr (i, e, s, g, near, (t, here, on_final, far)) ↦
            inr
              (i, e.source_idx, t, ap suc s, rw (s, follow_of, g) here, here, on_final, rw far near)
      ]
