-- ===== src/Machine/History.antt =====
-- The ring of past states: at most `history_cap` entries, each of a state that differs from the one
-- that came after it.
use xp_wellys_devfr_atc.Base.{
  ◌≤◌, ◌≡◌, ◌≢◌, inl, inr, ap, Bool, false, String, List, [], ◌∷◌, ◌++◌, length, ltb, bool_eq,
  Bool-cases, arith,
}
use xp_wellys_devfr_atc.State.{AtcState, state_eq, state_index}
use xp_wellys_devfr_atc.Machine.{
  Machine, StateHistoryEntry, history_cap, drop_oldest, transition_to, set_was_airborne,
}
use xp_wellys_devfr_atc.Machine.Discipline.{semantics, Write, Discipline, SessionRules}

module _ {F : Type 0} where
  abbrev pub first_state : List (StateHistoryEntry F) → AtcState → AtcState
  first_state [] current = current
  first_state (e ∷ es) current = e.state

  abbrev pub Alternates : List (StateHistoryEntry F) → AtcState → Type 0
  Alternates [] current = Unit
  Alternates (e ∷ es) current = (e.state ≢ first_state es current) × Alternates es current

  abbrev pub IsTraced : Machine F → Type 0
  IsTraced m = (length m.history ≤ history_cap) × Alternates m.history m.state

  length-drop_oldest : (es : List (StateHistoryEntry F)) → length (drop_oldest es) ≤ history_cap
  unfolding drop_oldest
  length-drop_oldest [] = omega arith
  length-drop_oldest (e ∷ es) = let ih = length-drop_oldest es in ground arith

  Alternates-drop_oldest :
      (es : List (StateHistoryEntry F)) (s : AtcState)
      → Alternates es s
      → Alternates (drop_oldest es) s
  unfolding drop_oldest
  Alternates-drop_oldest [] s h = tt
  Alternates-drop_oldest (e ∷ es) s (ne, h) =
      elim (Bool-cases (ltb history_cap (length (e ∷ es)))) [
        | inl t ↦ rw t (Alternates-drop_oldest es s h)
        | inr t ↦ rw t (ne, h)
      ]

  Alternates-append :
      (es : List (StateHistoryEntry F)) (e : StateHistoryEntry F) (s : AtcState)
      → Alternates es e.state
      → e.state ≢ s
      → Alternates (es ++ e ∷ []) s
  Alternates-append [] e s h ne = (ne, tt)
  Alternates-append (x ∷ []) e s h ne = (h.0, (ne, tt))
  Alternates-append (x ∷ y ∷ es) e s h ne = (h.0, Alternates-append (y ∷ es) e s h.1 ne)

  -- A change of state records the state it leaves, and keeps the ring in order.
  pub IsTraced-transition_to :
      (next : AtcState) (reason : String) (m : Machine F)
      → IsTraced m
      → IsTraced (transition_to next reason m)
  unfolding transition_to
  IsTraced-transition_to next reason m h = elim (Bool-cases (state_eq next m.state)) [
    | inl e ↦ rw (e, transition_to) h
    | inr e ↦
        rw (e, transition_to)
          (
            length-drop_oldest _,
            Alternates-drop_oldest _ next (Alternates-append m.history _ next h.1 (moved e)),
          )
  ]
    where
      moved : state_eq next m.state ≡ false → m.state ≢ next
      moved e q = ground (arith, ap state_index q)

  pub IsTraced-Write : (m m' : Machine F) → Write m m' → IsTraced m → IsTraced m'
  IsTraced-Write m m' w h = rw (w.1, w.2) h

  pub IsTraced-beat :
      (m m' : Machine F) → m'.gen ≡ m.gen → semantics m' ≡ semantics m → IsTraced m → IsTraced m'
  IsTraced-beat m m' _ e h =
      let kept : m'.history ≡ m.history = ap (λ s. s.history) e in
      let held : m'.state ≡ m.state = ap (λ s. s.state) e in rw (kept, held) h

  pub IsTraced-set_was_airborne :
      (v : Bool) (m : Machine F) → IsTraced m → IsTraced (set_was_airborne v m)
  unfolding set_was_airborne
  IsTraced-set_was_airborne v m h = elim (Bool-cases (bool_eq m.was_airborne v)) [
    | inl e ↦ rw e h
    | inr e ↦ rw e h
  ]

  unfoldable pub histories : Discipline F
  histories = record {
    R = λ n m m'. IsTraced m → IsTraced m';
    join = λ p q h. q (p h);
    loosen = λ b le p. p;
    move = IsTraced-transition_to;
    write = IsTraced-Write;
    beat = IsTraced-beat;
  }

  pub histories-SessionRules : SessionRules histories
  unfolding histories
  histories-SessionRules = record {
    restart = λ m m' _ e h. rw e (omega arith, tt);
    fly = IsTraced-set_was_airborne;
  }
