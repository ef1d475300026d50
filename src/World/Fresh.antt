-- ===== src/World/Fresh.antt =====
-- The lifecycle: what a restart, the begin of a fresh flight and a dropped dialog leave behind.
use xp_wellys_devfr_atc.Base.{
  ◌≡◌, ◌⊎◌, inl, inr, refl, ◌∙◌, Bool, true, false, not, ◌&&◌, ◌||◌, String, [], is_empty,
  Bool-cases, if◌then◌else◌, arith,
}
use xp_wellys_devfr_atc.Double.{Double}
use xp_wellys_devfr_atc.State.{idle, ground_contact, pattern_entry, en_route, pattern, state_eq}
use xp_wellys_devfr_atc.Readback.{no_clearance}
use xp_wellys_devfr_atc.Dialog
use xp_wellys_devfr_atc.FlightPhase.{FlightPhase, is_airborne}
use xp_wellys_devfr_atc.Context.{XplaneContext}
use xp_wellys_devfr_atc.Machine.{Machine}
use xp_wellys_devfr_atc.Machine.Discipline.{semantics}
use xp_wellys_devfr_atc.Machine.Transition.{Kept-transition_to, state-transition_to}
use xp_wellys_devfr_atc.World.{
  World, sweep, reset, begin_fresh_flight, is_near_airport, drop_dialog, disregard_machine,
  disregard, release_runway, release_callsign, release_locks,
}

module _ {F : Type 0} where
  -- No lock is held.
  abbrev pub IsReleased : Machine F → Type 0
  IsReleased m = (m.assigned_runway ≡ "") × (m.session_callsign ≡ "")

  -- No clearance waits for a readback, and no response can be repeated.
  abbrev pub IsQuiet : Machine F → Type 0
  IsQuiet m =
      (m.readback_pending ≡ false)
      × (m.last_clearance_text ≡ "")
      × (m.last_clearance_components ≡ no_clearance)
      × (m.last_tower_response_text ≡ "")

  -- Of every field but the count, the heartbeat and the timer of the corrections nothing is left of
  -- an earlier flight.
  abbrev pub IsFresh : Machine F → Type 0
  IsFresh m = semantics m ≡ record {
    state = idle;
    readback_pending = false;
    was_airborne = false;
    assigned_runway = "";
    session_callsign = "";
    last_clearance_text = "";
    last_clearance_components = no_clearance;
    last_tower_response_text = "";
    departure_type = pattern;
    flight_intent_declared = false;
    flight_intent_cross_country = false;
    flight_intent_destination = "";
    history = [];
  }

cleared : (s : String) → (if not (is_empty s) then "" else s) ≡ ""
cleared String.[] = refl
cleared (String.◌∷◌ c s) = refl

module _ {F : Type 0} where
  runway-release_runway :
      (m : Machine F)
      → (release_runway m).assigned_runway
        ≡ (if not (is_empty m.assigned_runway) then "" else m.assigned_runway)
  unfolding release_runway
  runway-release_runway m = ground arith

  runway-release_callsign :
      (m : Machine F) → (release_callsign m).assigned_runway ≡ m.assigned_runway
  unfolding release_callsign
  runway-release_callsign m = ground arith

  callsign-release_callsign :
      (m : Machine F)
      → (release_callsign m).session_callsign
        ≡ (if not (is_empty m.session_callsign) then "" else m.session_callsign)
  unfolding release_callsign
  callsign-release_callsign m = ground arith

  pub IsReleased-release_locks : (m : Machine F) → IsReleased (release_locks m)
  unfolding release_locks
  IsReleased-release_locks m = (
    runway-release_callsign (release_runway m)
        ∙ runway-release_runway m
        ∙ cleared m.assigned_runway,
    callsign-release_callsign (release_runway m) ∙ cleared (release_runway m).session_callsign,
  )

module _ {F : Type 0} ⦃d : Double F⦄ where
  -- A fresh flight begins only on the ground in IDLE or GROUND_CONTACT. Then the machine is in IDLE, with
  -- no clearance, response, lock, declared flight, destination or history, and the airport that the
  -- cross-country flow saw last is forgotten; the traffic dialog, the tracked phase and the timer of the
  -- corrections with its key stay as they are. In the air or in any other state the call changes nothing
  -- at all.
  pub begin_fresh_flight-outcome :
      (on_ground : Bool) (w : World F)
      → let ready =
          on_ground && (state_eq w.machine.state idle || state_eq w.machine.state ground_contact) in
        let w' = begin_fresh_flight on_ground w in
        (ready ≡ true
          × IsFresh w'.machine
          × w'.last_airport_id ≡ ""
          × w'.dialog ≡ w.dialog
          × w'.flight ≡ w.flight
          × w'.machine.active_correction_key ≡ w.machine.active_correction_key
          × w'.machine.correction_timer ≡ w.machine.correction_timer)
        ⊎ (ready ≡ false × w' ≡ w)
  unfolding begin_fresh_flight reset sweep
  begin_fresh_flight-outcome on_ground w =
      elim (Bool-cases
        (on_ground && (state_eq w.machine.state idle || state_eq w.machine.state ground_contact))) [
          | inl e ↦ inl (
            e,
            rw (e, begin_fresh_flight) refl,
            rw (e, begin_fresh_flight) refl,
            rw (e, begin_fresh_flight) refl,
            rw (e, begin_fresh_flight) refl,
            rw (e, begin_fresh_flight) refl,
            rw (e, begin_fresh_flight) refl,
          )
          | inr e ↦ inr (e, rw (e, begin_fresh_flight) refl)
        ]

  -- A dropped dialog leaves no clearance and no response behind, and the traffic dialog idle. On the
  -- ground the session ends: IDLE, with the runway and the callsign released. In the air the locks
  -- are kept, and the state is the one of an inbound or of an enroute aircraft.
  pub disregard-outcome :
      (ctx : XplaneContext F) (phase : FlightPhase) (now_secs : F) (w : World F)
      → let w' = disregard ctx phase now_secs w in
        IsQuiet w'.machine
        × (w'.dialog ≡ Dialog.init)
        × ((is_airborne phase ≡ false × w'.machine.state ≡ idle × IsReleased w'.machine)
            ⊎ (is_airborne phase ≡ true
                × w'.machine.state ≡ (if is_near_airport ctx then pattern_entry else en_route)
                × w'.machine.assigned_runway ≡ w.machine.assigned_runway
                × w'.machine.session_callsign ≡ w.machine.session_callsign))
  unfolding disregard disregard_machine drop_dialog
  disregard-outcome ctx phase now_secs w =
      let dropped = drop_dialog now_secs w.machine in
      let near = is_near_airport ctx in
      let inbound =
        Kept-transition_to (if near then pattern_entry else en_route)
          (if near then "disregard_airborne_near_airport" else "disregard_airborne_transit")
          dropped in
      let grounded = Kept-transition_to idle "disregard_on_ground" dropped in
      elim (Bool-cases (is_airborne phase)) [
        | inl e ↦ (
          rw (e, disregard, disregard_machine) (inbound.2, inbound.3, inbound.4, inbound.5),
          refl,
          inr (
            e,
            rw (e, disregard, disregard_machine) (state-transition_to _ _ _),
            rw (e, disregard, disregard_machine) inbound.0,
            rw (e, disregard, disregard_machine) inbound.1,
          ),
        )
        | inr e ↦ (
          rw (e, disregard, disregard_machine) (grounded.2, grounded.3, grounded.4, grounded.5),
          refl,
          inl (
            e,
            rw (e, disregard, disregard_machine) (state-transition_to _ _ _),
            rw (e, disregard, disregard_machine) (refl, refl),
          ),
        )
      ]
