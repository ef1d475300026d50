-- ===== src/Landing/Occupied.antt =====
-- The aircraft on the runway.
use xp_wellys_devfr_atc.Base.{
  ℕ, ◌≡◌, ◌⊎◌, inl, inr, refl, true, false, none, some, List, [], ◌∷◌, any, find-cases, get_elem?,
  All, arith,
}
use xp_wellys_devfr_atc.Double.{Double, whole}
use xp_wellys_devfr_atc.Geometry.{is_on_runway_centerline}
use xp_wellys_devfr_atc.Traffic.{
  TrafficPhase, TrafficTarget, TrafficContext, on_ground, takeoff, landed,
}
use xp_wellys_devfr_atc.Landing.{
  ActiveRunway, UserPosition, is_ground_phase, occupies, occupant_of, compute_landing_sequence,
}

-- On the ground, taking off or landed.
abbrev pub IsOnGround : TrafficPhase → Type 0
IsOnGround p = (p ≡ on_ground) ⊎ (p ≡ takeoff) ⊎ (p ≡ landed)

ground_phase-IsOnGround : (p : TrafficPhase) → is_ground_phase p ≡ true → IsOnGround p
unfolding is_ground_phase
ground_phase-IsOnGround TrafficPhase.unknown h = absurd (ground arith)
ground_phase-IsOnGround TrafficPhase.on_ground h = inl refl
ground_phase-IsOnGround TrafficPhase.taxi h = absurd (ground arith)
ground_phase-IsOnGround TrafficPhase.takeoff h = inr (inl refl)
ground_phase-IsOnGround TrafficPhase.climb h = absurd (ground arith)
ground_phase-IsOnGround TrafficPhase.cruise h = absurd (ground arith)
ground_phase-IsOnGround TrafficPhase.descend h = absurd (ground arith)
ground_phase-IsOnGround TrafficPhase.final h = absurd (ground arith)
ground_phase-IsOnGround TrafficPhase.pattern h = absurd (ground arith)
ground_phase-IsOnGround TrafficPhase.landed h = inr (inr refl)

IsOnGround-ground_phase : (p : TrafficPhase) → IsOnGround p → is_ground_phase p ≡ true
unfolding is_ground_phase
IsOnGround-ground_phase p (inl e) = rw e refl
IsOnGround-ground_phase p (inr (inl e)) = rw e refl
IsOnGround-ground_phase p (inr (inr e)) = rw e refl

module _ {F : Type 0} ⦃d : Double F⦄ where
  -- It is on the ground, within 30 m of the centre line of the runway's first 1500 m.
  abbrev pub Blocks : ActiveRunway F → TrafficTarget F → Type 0
  Blocks rwy t =
      IsOnGround t.phase
      × (is_on_runway_centerline t.lat t.lon rwy.threshold_lat rwy.threshold_lon rwy.heading_deg
            (whole 1500) (whole 30)
          ≡ true)

  occupies-Blocks :
      (rwy : ActiveRunway F) (t : TrafficTarget F) → occupies rwy t ≡ true → Blocks rwy t
  unfolding occupies
  occupies-Blocks rwy t h = (ground_phase-IsOnGround t.phase (ground arith), ground arith)

  Blocks-occupies :
      (rwy : ActiveRunway F) (t : TrafficTarget F) → Blocks rwy t → occupies rwy t ≡ true
  unfolding occupies
  Blocks-occupies rwy t h = rw (IsOnGround-ground_phase t.phase h.0, h.1) refl

  -- Where nothing occupies the runway, nothing blocks it.
  none-Blocks :
      (rwy : ActiveRunway F) (ts : List (TrafficTarget F))
      → any (occupies rwy) ts ≡ false
      → All (λ (t : TrafficTarget F). ¬ Blocks rwy t) ts
  none-Blocks rwy [] h = tt
  none-Blocks rwy (t ∷ ts) h = (
    λ b. let e = Blocks-occupies rwy t b in absurd (ground arith),
    none-Blocks rwy ts (ground arith),
  )

  -- The runway counts as occupied exactly if some aircraft of the snapshot is on the ground, taking off
  -- or landed, and the geometry finds it within 30 m of the centre line of the runway's first 1500 m:
  -- either no aircraft is so, and no occupant is named, or the occupant is such an aircraft.
  pub runway_occupied-Blocks :
      (traffic : TrafficContext F) (user : UserPosition F) (rwy : ActiveRunway F)
      → let r = compute_landing_sequence traffic user rwy in
        ((r.runway_occupied ≡ false)
          × (r.occupant ≡ none)
          × All (λ (t : TrafficTarget F). ¬ Blocks rwy t) traffic.targets)
        ⊎ (i : ℕ) × (t : TrafficTarget F) × (r.runway_occupied ≡ true)
          × (r.occupant ≡ some t)
          × (get_elem? traffic.targets i ≡ some t)
          × Blocks rwy t
  unfolding compute_landing_sequence occupant_of
  runway_occupied-Blocks traffic user rwy = elim (find-cases (occupies rwy) traffic.targets) [
    | inl (a, f) ↦ inl (rw f refl, rw f refl, none-Blocks rwy traffic.targets a)
    | inr (i, t, a, f, g, h) ↦ inr (i, t, rw f refl, rw f refl, g, occupies-Blocks rwy t h)
  ]
