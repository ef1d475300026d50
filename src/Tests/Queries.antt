-- ===== src/Tests/Queries.antt =====
-- The theorems of the history and of the traffic dialog at concrete inputs.
use xp_wellys_devfr_atc.Base.{◌≡◌, refl, true, false, not, ◌&&◌, ◌||◌, [], ◌∷◌, any, find, reverse}
use xp_wellys_devfr_atc.Double.{whole}
use xp_wellys_devfr_atc.Double.Fixed.{Fixed, fixed_double}
use xp_wellys_devfr_atc.State.{AtcState, state_eq}
use xp_wellys_devfr_atc.Intent.{PilotIntent, intent_eq}
use xp_wellys_devfr_atc.Machine.{Machine, StateHistoryEntry}
use xp_wellys_devfr_atc.Dialog.{init, on_advisory_emitted}
use xp_wellys_devfr_atc.Dialog.Pilot.{no_reply, is_traffic_intent, handle_pilot}
use xp_wellys_devfr_atc.Dialog.Pilot.Acknowledge.{handle_pilot-once}
use xp_wellys_devfr_atc.Queries.{is_landing, at_airport_after_landing, was_recently_in}
use xp_wellys_devfr_atc.Queries.Windows.{
  IsAged, too_old, decides, landing_found, was_recently_in-any, at_airport_after_landing-newest,
}
use xp_wellys_devfr_atc.Tests.Data.{idle_machine, ramp, env, says}

-- A landing ninety seconds before the taxi-in.
abbrev landed : Machine Fixed
landed = record idle_machine {
  history =
      record { state = AtcState.pattern_entry; reason = "process"; timestamp_secs = whole 100 }
      ∷ record { state = AtcState.landing_cleared; reason = "process"; timestamp_secs = whole 210 }
      ∷ [];
}

landed_ages : IsAged (whole 120) (whole 300) (reverse landed.history)
landed_ages = (λ e. (refl, tt), (λ e. tt, tt))

was_recently_in-any_example :
    was_recently_in AtcState.landing_cleared (whole 120) (whole 300) landed ≡ (
      false
      || any
          (λ (e : StateHistoryEntry Fixed).
            not (too_old (whole 120) (whole 300) e) && state_eq e.state AtcState.landing_cleared)
          (reverse landed.history))
was_recently_in-any_example =
    was_recently_in-any AtcState.landing_cleared (whole 120) (whole 300) landed landed_ages

at_airport_after_landing-newest_example :
    at_airport_after_landing ramp landed
    ≡ (true && (is_landing landed.state || landing_found (find decides (reverse landed.history))))
at_airport_after_landing-newest_example = at_airport_after_landing-newest ramp landed

in_sight : is_traffic_intent (says PilotIntent.traffic_in_sight "Verkehr in Sicht") ≡ true
unfolding is_traffic_intent
in_sight = refl

handle_pilot-once_example :
    let r =
      handle_pilot env
        (says PilotIntent.traffic_in_sight "Verkehr in Sicht")
        ramp
        idle_machine
        (on_advisory_emitted 7 init) in
    (r.1.handled ≡ true)
    × (r.1.acknowledged_with_visual
        ≡ intent_eq PilotIntent.traffic_in_sight PilotIntent.traffic_in_sight)
    × (r.0 ≡ init)
    × (handle_pilot env (says PilotIntent.traffic_looking "Ausschau") ramp idle_machine r.0
        ≡ (init, no_reply))
handle_pilot-once_example =
    handle_pilot-once env (says PilotIntent.traffic_in_sight "Verkehr in Sicht")
      (says PilotIntent.traffic_looking "Ausschau") ramp ramp idle_machine idle_machine 7 init
      in_sight
