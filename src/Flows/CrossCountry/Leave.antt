-- ===== src/Flows/CrossCountry/Leave.antt =====
-- What a change of the nearest airport does to the dialog.
use xp_wellys_devfr_atc.Base.{
  ◌≡◌, ◌⊎◌, inl, inr, refl, true, false, not, text_eq, is_empty, Bool-cases, ◌&&◌,
}
use xp_wellys_devfr_atc.State.{AtcState, idle, pattern, state_eq}
use xp_wellys_devfr_atc.Context.{XplaneContext}
use xp_wellys_devfr_atc.Machine.{
  Machine, set_readback_pending, clear_assigned_runway, set_departure_type, set_last_now_secs,
}
use xp_wellys_devfr_atc.Machine.Transition.{Kept-transition_to, state-transition_to}
use xp_wellys_devfr_atc.World.{World}
use xp_wellys_devfr_atc.Flows.CrossCountry.{leave_airport, check_airport_change}

module _ {F : Type 0} where
  -- The dialog starts anew, and two fields are left over.
  abbrev pub HasLeft : Machine F → Machine F → Type 0
  HasLeft m m' =
      (m'.state ≡ idle)
      × (m'.assigned_runway ≡ "")
      × (m'.readback_pending ≡ false)
      × (m'.departure_type ≡ pattern)
      × (m'.session_callsign ≡ m.session_callsign)
      × (m'.last_clearance_text ≡ m.last_clearance_text)

  leave_airport-HasLeft : (m : Machine F) → HasLeft m (leave_airport m)
  unfolding leave_airport set_readback_pending clear_assigned_runway set_departure_type
  leave_airport-HasLeft m =
      let kept = Kept-transition_to idle "airport_change_en_route" m in
      (state-transition_to _ _ m, refl, refl, refl, kept.1, kept.3)

  -- The airport check resets the dialog exactly if the aircraft is en route and another airport than
  -- the one seen last is the nearest: the state is IDLE, the runway is released and no readback is
  -- owed, but the callsign and the text of the last clearance stay. In every other case the machine
  -- keeps all but the heartbeat.
  pub check_airport_change-outcome :
      (ctx : XplaneContext F) (now_secs : F) (w : World F)
      → let changed =
          not (is_empty ctx.nearest_airport_id)
          && state_eq w.machine.state AtcState.en_route
          && not (is_empty w.last_airport_id)
          && not (text_eq ctx.nearest_airport_id w.last_airport_id) in
        let w' = check_airport_change ctx now_secs w in
        (changed ≡ true
          × HasLeft w.machine w'.machine
          × w'.last_airport_id ≡ ctx.nearest_airport_id)
        ⊎ (changed ≡ false × w'.machine ≡ set_last_now_secs now_secs w.machine)
  unfolding check_airport_change set_last_now_secs
  check_airport_change-outcome ctx now_secs w =
      let away = leave_airport-HasLeft (set_last_now_secs now_secs w.machine) in
      elim (Bool-cases (is_empty ctx.nearest_airport_id)) [
        | inl e ↦ rw (e, check_airport_change) (inr (refl, refl))
        | inr e ↦ elim (Bool-cases (state_eq w.machine.state AtcState.en_route)) [
          | inr f ↦ rw (e, f, check_airport_change) (inr (refl, refl))
          | inl f ↦ elim (Bool-cases (is_empty w.last_airport_id)) [
            | inl g ↦ rw (e, f, g, check_airport_change) (inr (refl, refl))
            | inr g ↦ elim (Bool-cases (text_eq ctx.nearest_airport_id w.last_airport_id)) [
              | inl h ↦ rw (e, f, g, h, check_airport_change) (inr (refl, refl))
              | inr h ↦ rw (e, f, g, h, check_airport_change) (inl (refl, away, refl))
            ]
          ]
        ]
      ]
