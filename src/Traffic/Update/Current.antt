-- ===== src/Traffic/Update/Current.antt =====
-- What every tick of the traffic snapshot keeps.
use xp_wellys_devfr_atc.Base.{
  ℕ, ◌≡◌, ◌⊎◌, inl, inr, refl, ◌∙◌, ap, Bool, true, false, not, ◌&&◌, ◌||◌, List, [], ◌∷◌, ◌==◌,
  any, keep, All, Bool-cases, arith,
}
use xp_wellys_devfr_atc.Double.{Double, IsOrdered, ◌<?◌, ◌≤?◌, whole}
use xp_wellys_devfr_atc.Traffic.{TrafficPhase, TrafficTarget}
use xp_wellys_devfr_atc.Traffic.Update.{
  Slot, Tracker, Tick, is_used, target_of, collect, insert_target, sort_targets, init, stop, update,
}

pub data Call (F : Type 0) : Type 0 where
  init_call : Call F
  stop_call : Call F
  tick_call : Tick F → Call F

All-keep :
    (p : ℕ × TrafficPhase → Bool) (es : List (ℕ × TrafficPhase))
    → All (λ (e : ℕ × TrafficPhase). p e ≡ true) (keep p es)
All-keep p [] = tt
All-keep p (e ∷ es) = elim (Bool-cases (p e)) [
  | inl h ↦ rw h (h, All-keep p es)
  | inr h ↦ rw h (All-keep p es)
]

module _ {F : Type 0} ⦃d : Double F⦄ where
  -- The calls of the plugin, one after another.
  unfoldable pub run : List (Call F) → Tracker F → Tracker F
  run [] s = s
  run (init_call ∷ calls) s = run calls (init s)
  run (stop_call ∷ calls) s = run calls (stop s)
  run (tick_call tick ∷ calls) s = run calls (update tick s)

  abbrev IsNear : TrafficTarget F → Type 0
  IsNear t = (whole 40 <? t.distance_to_user_nm) ≡ false

  -- Nearest first.
  abbrev IsSorted : List (TrafficTarget F) → Type 0
  IsSorted [] = Unit
  IsSorted (t ∷ ts) =
      All (λ (u : TrafficTarget F). (t.distance_to_user_nm ≤? u.distance_to_user_nm) ≡ true) ts
      × IsSorted ts

  -- A phase is remembered only of an aircraft of the list.
  abbrev IsTraced : List (ℕ × TrafficPhase) → List (TrafficTarget F) → Type 0
  IsTraced phases ts =
      All (λ (e : ℕ × TrafficPhase). any (λ (t : TrafficTarget F). t.modes_id == e.0) ts ≡ true)
        phases

  abbrev pub IsCurrent : Tracker F → Type 0
  IsCurrent s =
      let ts = s.snapshot.targets in
      All IsNear ts × IsSorted ts × (IsTraced s.prev_phase ts ⊎ (ts ≡ []))

  collect-IsNear :
      (tick : Tick F) (slots : List (Slot F)) (phases : List (ℕ × TrafficPhase))
      → All IsNear (collect tick phases slots).0
  unfolding collect
  collect-IsNear tick [] phases = tt
  collect-IsNear tick (slot ∷ slots) phases =
      let far = whole 40 <? (target_of tick slot).distance_to_user_nm in
      elim (Bool-cases (is_used slot && not far)) [
        | inl h ↦ let near : far ≡ false = ground arith in rw h (near, collect-IsNear tick slots _)
        | inr h ↦ rw h (collect-IsNear tick slots phases)
      ]

  All-insert :
      (P : TrafficTarget F → Type 0) (t : TrafficTarget F) (ts : List (TrafficTarget F))
      → P t
      → All P ts
      → All P (insert_target t ts)
  unfolding insert_target
  All-insert P t [] h k = (h, tt)
  All-insert P t (u ∷ us) h k = elim (Bool-cases (u.distance_to_user_nm <? t.distance_to_user_nm)) [
    | inl j ↦ rw j (k.0, All-insert P t us h k.1)
    | inr j ↦ rw j (h, k)
  ]

  All-sort :
      (P : TrafficTarget F → Type 0) (ts : List (TrafficTarget F))
      → All P ts
      → All P (sort_targets ts)
  unfolding sort_targets
  All-sort P [] h = tt
  All-sort P (t ∷ ts) h = All-insert P t (sort_targets ts) h.0 (All-sort P ts h.1)

  any-insert :
      (p : TrafficTarget F → Bool) (t : TrafficTarget F) (ts : List (TrafficTarget F))
      → any p (insert_target t ts) ≡ (p t || any p ts)
  unfolding insert_target
  any-insert p t [] = refl
  any-insert p t (u ∷ us) =
      let ih = any-insert p t us in
      elim (Bool-cases (u.distance_to_user_nm <? t.distance_to_user_nm)) [
        | inl j ↦ rw j (ground (arith, ih))
        | inr j ↦ rw j refl
      ]

  any-sort :
      (p : TrafficTarget F → Bool) (ts : List (TrafficTarget F))
      → any p (sort_targets ts) ≡ any p ts
  unfolding sort_targets
  any-sort p [] = refl
  any-sort p (t ∷ ts) = any-insert p t (sort_targets ts) ∙ ap (◌||◌ (p t)) (any-sort p ts)

  IsTraced-sort :
      (phases : List (ℕ × TrafficPhase)) (ts : List (TrafficTarget F))
      → IsTraced phases ts
      → IsTraced phases (sort_targets ts)
  IsTraced-sort [] ts h = tt
  IsTraced-sort (e ∷ phases) ts h =
      (any-sort (λ t. t.modes_id == e.0) ts ∙ h.0, IsTraced-sort phases ts h.1)

module _ {F : Type 0} ⦃d : Double F⦄ (ordered : IsOrdered F) where
  before : (a b : F) → (a <? b) ≡ true → (a ≤? b) ≡ true
  before a b h =
      ground (arith, ordered.le-eq-not-lt a b, ordered.lt_trans a b a, ordered.lt_irrefl a)

  after : (a b : F) → (a <? b) ≡ false → (b ≤? a) ≡ true
  after a b h = ground (arith, ordered.le-eq-not-lt b a)

  All-le :
      (a b : F) (ts : List (TrafficTarget F))
      → (a ≤? b) ≡ true
      → All (λ (u : TrafficTarget F). (b ≤? u.distance_to_user_nm) ≡ true) ts
      → All (λ (u : TrafficTarget F). (a ≤? u.distance_to_user_nm) ≡ true) ts
  All-le a b [] h k = tt
  All-le a b (t ∷ ts) h k = (ordered.le_trans a b t.distance_to_user_nm h k.0, All-le a b ts h k.1)

  insert_target-IsSorted :
      (t : TrafficTarget F) (ts : List (TrafficTarget F))
      → IsSorted ts
      → IsSorted (insert_target t ts)
  unfolding insert_target
  insert_target-IsSorted t [] h = (tt, tt)
  insert_target-IsSorted t (u ∷ us) h =
      let a = u.distance_to_user_nm in
      let b = t.distance_to_user_nm in
      elim (Bool-cases (a <? b)) [
        | inl j ↦ rw j (
          All-insert (λ x. (a ≤? x.distance_to_user_nm) ≡ true) t us (before a b j) h.0,
          insert_target-IsSorted t us h.1,
        )
        | inr j ↦ rw j ((after a b j, All-le b a us (after a b j) h.0), h)
      ]

  sort_targets-IsSorted : (ts : List (TrafficTarget F)) → IsSorted (sort_targets ts)
  unfolding sort_targets
  sort_targets-IsSorted [] = tt
  sort_targets-IsSorted (t ∷ ts) = insert_target-IsSorted t _ (sort_targets-IsSorted ts)

  update-IsCurrent : (tick : Tick F) (s : Tracker F) → IsCurrent s → IsCurrent (update tick s)
  unfolding update
  update-IsCurrent tick s h =
      let found = collect tick s.prev_phase tick.slots in
      let seen =
        λ (e : ℕ × TrafficPhase). any (λ (t : TrafficTarget F). t.modes_id == e.0) found.0 in
      elim (Bool-cases tick.enabled) [
        | inl e ↦ elim (Bool-cases tick.has_handles) [
          | inl k ↦
              rw (e, k)
                (
                  All-sort IsNear found.0 (collect-IsNear tick tick.slots s.prev_phase),
                  sort_targets-IsSorted found.0,
                  inl (IsTraced-sort _ found.0 (All-keep seen found.1)),
                )
          | inr k ↦ rw (e, k) h
        ]
        | inr e ↦ elim (Bool-cases s.was_disabled) [
          | inl k ↦ rw (e, k) h
          | inr k ↦ rw (e, k) (tt, tt, inr refl)
        ]
      ]

  -- Whatever the plugin calls, the snapshot lists no aircraft beyond 40 miles, lists the nearest
  -- first, and a phase is remembered only of an aircraft of the snapshot, unless the snapshot is
  -- empty; if this holds before, and doubles are ordered.
  pub run-IsCurrent :
      (calls : List (Call F)) (s : Tracker F) → IsCurrent s → IsCurrent (run calls s)
  unfolding run init stop
  run-IsCurrent [] s h = h
  run-IsCurrent (init_call ∷ calls) s h = run-IsCurrent calls (init s) (tt, tt, inr refl)
  run-IsCurrent (stop_call ∷ calls) s h = run-IsCurrent calls (stop s) (tt, tt, inr refl)
  run-IsCurrent (tick_call tick ∷ calls) s h =
      run-IsCurrent calls (update tick s) (update-IsCurrent tick s h)
