-- ===== src/Landing/Order.antt =====
-- The order of the landing sequence.
use xp_wellys_devfr_atc.Base.{
  ℕ, suc, ◌≡◌, inl, inr, refl, sym, ap, ◌∙◌, true, false, List, [], ◌∷◌, All, Bool-cases,
  if◌then◌else◌, arith,
}
use xp_wellys_devfr_atc.Double.{Double, IsOrdered, ◌<?◌, ◌≤?◌}
use xp_wellys_devfr_atc.Traffic.{TrafficContext}
use xp_wellys_devfr_atc.Landing.{
  ActiveRunway, UserPosition, FinalEntry, entry_lt, insert_entry, sort_entries, user_index,
  collect_finals, sorted_finals, distance_to_threshold_nm, compute_landing_sequence,
}

module _ {F : Type 0} ⦃d : Double F⦄ where
  -- How many entries are no farther than the user.
  abbrev pub count_near : F → List (FinalEntry F) → ℕ
  count_near user_dist [] = 0
  count_near user_dist (e ∷ es) =
      let rest = count_near user_dist es in if user_dist <? e.dist_nm then rest else suc rest

  -- Sorted by distance.
  abbrev pub IsSorted : List (FinalEntry F) → Type 0
  IsSorted [] = Unit
  IsSorted (e ∷ es) = All (λ (x : FinalEntry F). (e.dist_nm ≤? x.dist_nm) ≡ true) es × IsSorted es

  count_near-insert_entry :
      (u : F) (e : FinalEntry F) (es : List (FinalEntry F))
      → count_near u (insert_entry e es) ≡ count_near u (e ∷ es)
  unfolding insert_entry
  count_near-insert_entry u e [] = refl
  count_near-insert_entry u e (x ∷ xs) =
      let ih = count_near-insert_entry u e xs in
      elim (Bool-cases (entry_lt x e)) [ inl k ↦ rw k (ground (arith, ih)) | inr k ↦ rw k refl ]

  count_near-sort_entries :
      (u : F) (es : List (FinalEntry F)) → count_near u (sort_entries es) ≡ count_near u es
  unfolding sort_entries
  count_near-sort_entries u [] = refl
  count_near-sort_entries u (e ∷ es) =
      let ih = count_near-sort_entries u es in
      let step = count_near-insert_entry u e (sort_entries es) in ground (arith, ih, step)

module _ {F : Type 0} ⦃d : Double F⦄ (ordered : IsOrdered F) where
  before : (x e : FinalEntry F) → entry_lt x e ≡ true → (x.dist_nm ≤? e.dist_nm) ≡ true
  unfolding entry_lt
  before x e h =
      let a = x.dist_nm in
      let b = e.dist_nm in
      ground (
        arith,
        ordered.le-eq-not-lt a b,
        ordered.lt_trans a b a,
        ordered.lt_irrefl a,
        ordered.eq-eq-le a b,
      )

  after : (x e : FinalEntry F) → entry_lt x e ≡ false → (e.dist_nm ≤? x.dist_nm) ≡ true
  unfolding entry_lt
  after x e h =
      let a = x.dist_nm in
      let b = e.dist_nm in ground (arith, ordered.le-eq-not-lt b a, ordered.eq-eq-le a b)

  All-le :
      (a b : F) (es : List (FinalEntry F))
      → (a ≤? b) ≡ true
      → All (λ (x : FinalEntry F). (b ≤? x.dist_nm) ≡ true) es
      → All (λ (x : FinalEntry F). (a ≤? x.dist_nm) ≡ true) es
  All-le a b [] h k = tt
  All-le a b (x ∷ es) h k = (ordered.le_trans a b x.dist_nm h k.0, All-le a b es h k.1)

  All-insert_entry :
      (a : F) (e : FinalEntry F) (es : List (FinalEntry F))
      → (a ≤? e.dist_nm) ≡ true
      → All (λ (x : FinalEntry F). (a ≤? x.dist_nm) ≡ true) es
      → All (λ (x : FinalEntry F). (a ≤? x.dist_nm) ≡ true) (insert_entry e es)
  unfolding insert_entry
  All-insert_entry a e [] h k = (h, tt)
  All-insert_entry a e (x ∷ xs) h k = elim (Bool-cases (entry_lt x e)) [
    | inl j ↦ rw j (k.0, All-insert_entry a e xs h k.1)
    | inr j ↦ rw j (h, k)
  ]

  insert_entry-IsSorted :
      (e : FinalEntry F) (es : List (FinalEntry F)) → IsSorted es → IsSorted (insert_entry e es)
  unfolding insert_entry
  insert_entry-IsSorted e [] h = (tt, tt)
  insert_entry-IsSorted e (x ∷ xs) h = elim (Bool-cases (entry_lt x e)) [
    | inl j ↦
        rw j (All-insert_entry x.dist_nm e xs (before x e j) h.0, insert_entry-IsSorted e xs h.1)
    | inr j ↦ rw j ((after x e j, All-le e.dist_nm x.dist_nm xs (after x e j) h.0), h)
  ]

  sort_entries-IsSorted : (es : List (FinalEntry F)) → IsSorted (sort_entries es)
  unfolding sort_entries
  sort_entries-IsSorted [] = tt
  sort_entries-IsSorted (e ∷ es) = insert_entry-IsSorted e _ (sort_entries-IsSorted es)

  -- Beyond an entry that is farther, all are.
  far :
      (u a : F) (es : List (FinalEntry F))
      → (u <? a) ≡ true
      → All (λ (x : FinalEntry F). (a ≤? x.dist_nm) ≡ true) es
      → count_near u es ≡ 0
  far u a [] h k = refl
  far u a (x ∷ es) h k =
      let rest = far u a es h k.1 in
      let near = k.0 in
      ground (
        arith,
        rest,
        near,
        ordered.le_trans a x.dist_nm u,
        ordered.le-eq-not-lt x.dist_nm u,
        ordered.le-eq-not-lt a u,
      )

  user_index-count_near :
      (u : F) (es : List (FinalEntry F)) → IsSorted es → user_index u es ≡ count_near u es
  unfolding user_index
  user_index-count_near u [] h = refl
  user_index-count_near u (e ∷ es) h = elim (Bool-cases (u <? e.dist_nm)) [
    | inl k ↦ rw k (sym (far u e.dist_nm es k h.0))
    | inr k ↦ rw k (ap suc (user_index-count_near u es h.1))
  ]

  -- The user's number in the landing sequence is one more than the aircraft on final that are no farther
  -- from the threshold than the user, however the targets are ordered in the snapshot.
  pub user_position-count_near :
      (traffic : TrafficContext F) (user : UserPosition F) (rwy : ActiveRunway F)
      → (compute_landing_sequence traffic user rwy).user_position
        ≡ suc (
            count_near
              (distance_to_threshold_nm user.lat user.lon rwy)
              (collect_finals rwy 0 traffic.targets))
  unfolding compute_landing_sequence sorted_finals
  user_position-count_near traffic user rwy =
      let u = distance_to_threshold_nm user.lat user.lon rwy in
      let finals = collect_finals rwy 0 traffic.targets in
      ap suc (
        user_index-count_near u (sort_entries finals) (sort_entries-IsSorted finals)
        ∙ count_near-sort_entries u finals)
