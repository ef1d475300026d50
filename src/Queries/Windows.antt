-- ===== src/Queries/Windows.antt =====
-- What the walks over the history find.
use xp_wellys_devfr_atc.Base.{
  ◌≡◌, inl, inr, refl, sym, Bool, true, false, not, ◌&&◌, ◌||◌, Option, none, some, List, [], ◌∷◌,
  All, any, find, reverse, Bool-cases, if◌then◌else◌, arith,
}
use xp_wellys_devfr_atc.Double.{Double, ◌<?◌, sub}
use xp_wellys_devfr_atc.State.{AtcState, departure_cleared, state_eq}
use xp_wellys_devfr_atc.Context.{XplaneContext}
use xp_wellys_devfr_atc.Machine.{Machine, StateHistoryEntry}
use xp_wellys_devfr_atc.Queries.{
  is_landing, landed_last, at_airport_after_landing, recent_in, was_recently_in,
}

if_or : (b r : Bool) → (if b then true else r) ≡ (b || r)
if_or true r = refl
if_or false r = refl

gate : (g b r : Bool) → (if not g then false else if b then true else r) ≡ (g && (b || r))
gate g b r = ground arith

departed_not_landing : (s : AtcState) → state_eq s departure_cleared ≡ true → is_landing s ≡ false
unfolding is_landing
departed_not_landing s h = ground arith

module _ {F : Type 0} where
  abbrev pub decides : StateHistoryEntry F → Bool
  decides e = state_eq e.state departure_cleared || is_landing e.state

  abbrev pub landing_found : Option (StateHistoryEntry F) → Bool
  landing_found none = false
  landing_found (some e) = is_landing e.state

  landed_last-find :
      (es : List (StateHistoryEntry F)) → landed_last es ≡ landing_found (find decides es)
  unfolding landed_last
  landed_last-find [] = refl
  landed_last-find (e ∷ es) =
      let ih = landed_last-find es in
      elim (Bool-cases (state_eq e.state departure_cleared)) [
        | inl k ↦ rw (k, departed_not_landing e.state k) refl
        | inr k ↦ elim (Bool-cases (is_landing e.state)) [
          | inl l ↦ rw (k, l) (sym l)
          | inr l ↦ rw (k, l) ih
        ]
      ]

module _ {F : Type 0} ⦃d : Double F⦄ where
  abbrev pub too_old : F → F → StateHistoryEntry F → Bool
  too_old max_age now e = max_age <? sub now e.timestamp_secs

  -- Newest first: beyond an entry that is too old, all are.
  abbrev pub IsAged : F → F → List (StateHistoryEntry F) → Type 0
  IsAged max_age now [] = Unit
  IsAged max_age now (e ∷ es) =
      (too_old max_age now e ≡ true
        → All (λ (x : StateHistoryEntry F). too_old max_age now x ≡ true) es)
      × IsAged max_age now es

  none_recent :
      (s : AtcState) (max_age now : F) (es : List (StateHistoryEntry F))
      → All (λ (x : StateHistoryEntry F). too_old max_age now x ≡ true) es
      → any (λ (e : StateHistoryEntry F). not (too_old max_age now e) && state_eq e.state s) es
        ≡ false
  none_recent s max_age now [] h = refl
  none_recent s max_age now (e ∷ es) h = rw h.0 (none_recent s max_age now es h.1)

  recent_in-any :
      (s : AtcState) (max_age now : F) (es : List (StateHistoryEntry F))
      → IsAged max_age now es
      → recent_in s max_age now es
        ≡ any (λ (e : StateHistoryEntry F). not (too_old max_age now e) && state_eq e.state s) es
  unfolding recent_in
  recent_in-any s max_age now [] h = refl
  recent_in-any s max_age now (e ∷ es) h =
      let ih = recent_in-any s max_age now es h.1 in
      elim (Bool-cases (too_old max_age now e)) [
        | inl k ↦ rw (k, none_recent s max_age now es (h.0 k)) refl
        | inr k ↦ rw (k, ih) (if_or (state_eq e.state s) _)
      ]

  -- A state counts as recent exactly if it is the current one, or an entry of the history names it that
  -- is not older than the window, wherever the entry stands: given that entries get no younger from
  -- the newest to the oldest, the walk may stop at the first old one.
  pub was_recently_in-any :
      (s : AtcState) (max_age now : F) (m : Machine F)
      → IsAged max_age now (reverse m.history)
      → was_recently_in s max_age now m ≡ (
          state_eq m.state s
          || any
              (λ (e : StateHistoryEntry F). not (too_old max_age now e) && state_eq e.state s)
              (reverse m.history))
  unfolding was_recently_in
  was_recently_in-any s max_age now m h =
      rw (← recent_in-any s max_age now _ h) (if_or (state_eq m.state s) _)

module _ {F : Type 0} where
  -- The pilot taxies in after a landing exactly if the aircraft is on the ground and the dialog is in a
  -- landing state, or the newest entry that is a landing state or DEPARTURE_CLEARED is a landing
  -- state: a later departure closes the window, every other state keeps it open.
  pub at_airport_after_landing-newest :
      (ctx : XplaneContext F) (m : Machine F)
      → at_airport_after_landing ctx m ≡ (
          ctx.on_ground && (is_landing m.state || landing_found (find decides (reverse m.history))))
  unfolding at_airport_after_landing
  at_airport_after_landing-newest ctx m =
      rw (← landed_last-find (reverse m.history)) (gate ctx.on_ground (is_landing m.state) _)
