-- ===== src/Machine/Discipline.antt =====
-- Disciplines: relations between the machine before and after a stage, with the number of bumps at
-- most. A relation that the primitive steps respect is respected by every stage that is built of
-- them, so the stages are walked once for all of them.
use xp_wellys_devfr_atc.Base.{
  ℕ, ◌+◌, ◌≤◌, ◌≡◌, refl, ◌⊎◌, inl, inr, Bool, true, false, String, List, [], if◌then◌else◌, arith,
}
use xp_wellys_devfr_atc.State.{AtcState, DepartureType}
use xp_wellys_devfr_atc.Readback.{ClearanceComponents}
use xp_wellys_devfr_atc.Machine.{
  Machine, StateHistoryEntry, bump_gen, transition_to, set_last_now_secs, set_readback_pending,
  set_was_airborne, clear_assigned_runway, set_departure_type,
}

-- The fields that are not heartbeats.
pub record Semantics (F : Type 0) : Type 0 where
  pub state : AtcState
  pub readback_pending : Bool
  pub was_airborne : Bool
  pub assigned_runway : String
  pub session_callsign : String
  pub last_clearance_text : String
  pub last_clearance_components : ClearanceComponents
  pub last_tower_response_text : String
  pub departure_type : DepartureType
  pub flight_intent_declared : Bool
  pub flight_intent_cross_country : Bool
  pub flight_intent_destination : String
  pub history : List (StateHistoryEntry F)

module _ {F : Type 0} where
  abbrev pub semantics : Machine F → Semantics F
  semantics m = record {
    state = m.state;
    readback_pending = m.readback_pending;
    was_airborne = m.was_airborne;
    assigned_runway = m.assigned_runway;
    session_callsign = m.session_callsign;
    last_clearance_text = m.last_clearance_text;
    last_clearance_components = m.last_clearance_components;
    last_tower_response_text = m.last_tower_response_text;
    departure_type = m.departure_type;
    flight_intent_declared = m.flight_intent_declared;
    flight_intent_cross_country = m.flight_intent_cross_country;
    flight_intent_destination = m.flight_intent_destination;
    history = m.history;
  }

  -- A write: one bump, and no change of the state, of the history or of the airborne flag.
  abbrev pub Write : Machine F → Machine F → Type 0
  Write m m' =
      (m'.gen ≡ (bump_gen m).gen)
      × (m'.state ≡ m.state)
      × (m'.history ≡ m.history)
      × (m'.was_airborne ≡ m.was_airborne)

pub record Discipline (F : Type 0) : Type 1 where
  -- `R n m m'`: a stage takes `m` to `m'` with at most `n` bumps.
  pub R : ℕ → Machine F → Machine F → Type 0
  pub join : {a b : ℕ} {x y z : Machine F} → R a x y → R b y z → R (a + b) x z
  pub loosen : {a : ℕ} (b : ℕ) {x y : Machine F} → a ≤ b → R a x y → R b x y
  pub move :
      (next : AtcState) (reason : String) (m : Machine F) → R 1 m (transition_to next reason m)
  pub write : (m m' : Machine F) → Write m m' → R 1 m m'
  pub beat : (m m' : Machine F) → m'.gen ≡ m.gen → semantics m' ≡ semantics m → R 0 m m'

-- What a discipline of whole sessions respects as well: the restarts of the machine and the flag.
pub record SessionRules {F : Type 0} (D : Discipline F) : Type 0 where
  pub restart : (m m' : Machine F) → m'.gen ≡ (bump_gen m).gen → m'.history ≡ [] → D.R 1 m m'
  pub fly : (v : Bool) (m : Machine F) → D.R 1 m (set_was_airborne v m)

module _ {F : Type 0} (D : Discipline F) where
  pub skip : (n : ℕ) (m : Machine F) → D.R n m m
  skip n m = D.loosen n (omega arith) (D.beat m m refl refl)

  pub same : (m m' : Machine F) → m' ≡ m → D.R 0 m m'
  same m m' e = rw e (skip 0 m)

  -- The usual block: it leaves the machine alone, or writes.
  pub once : (m m' : Machine F) → (m' ≡ m) ⊎ Write m m' → D.R 1 m m'
  once m m' (inl e) = rw e (skip 1 m)
  once m m' (inr w) = D.write m m' w

  -- A block that may move the machine.
  pub move_once :
      (next : AtcState) (reason : String) (m m' : Machine F)
      → (m' ≡ m) ⊎ (m' ≡ transition_to next reason m)
      → D.R 1 m m'
  move_once next reason m m' (inl e) = rw e (skip 1 m)
  move_once next reason m m' (inr e) = rw e (D.move next reason m)

  pub choice :
      {n : ℕ} (b : Bool) {m x y : Machine F} → D.R n m x → D.R n m y → D.R n m (if b then x else y)
  choice true p q = p
  choice false p q = q

  pub heartbeat : (t : F) (m : Machine F) → D.R 0 m (set_last_now_secs t m)
  unfolding set_last_now_secs
  heartbeat t m = D.beat m _ refl refl

  pub arm : (v : Bool) (m : Machine F) → D.R 1 m (set_readback_pending v m)
  unfolding set_readback_pending
  arm v m = D.write m _ (refl, refl, refl, refl)

  pub unassign : (m : Machine F) → D.R 1 m (clear_assigned_runway m)
  unfolding clear_assigned_runway
  unassign m = D.write m _ (refl, refl, refl, refl)

  pub depart : (t : DepartureType) (m : Machine F) → D.R 1 m (set_departure_type t m)
  unfolding set_departure_type
  depart t m = D.write m _ (refl, refl, refl, refl)
