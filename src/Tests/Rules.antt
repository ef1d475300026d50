-- ===== src/Tests/Rules.antt =====
-- The theorems of the rules, the radio, the templates and the landing sequence at concrete inputs.
use xp_wellys_devfr_atc.Base.{suc, ◌≡◌, ◌⊎◌, true, not, ◌&&◌, ◌||◌, List, [], ◌∷◌, All, any}
use xp_wellys_devfr_atc.Double.{whole, mul, lit}
use xp_wellys_devfr_atc.Double.Fixed.{Fixed, fixed_double, Fixed-IsOrdered}
use xp_wellys_devfr_atc.Intent.{PilotIntent}
use xp_wellys_devfr_atc.Radio.{FrequencyType}
use xp_wellys_devfr_atc.Radio
use xp_wellys_devfr_atc.Radio.Lookup.{heard, Best, lookup-Best}
use xp_wellys_devfr_atc.Readback.{Element, element_eq, has_element, readback_covers_core}
use xp_wellys_devfr_atc.Readback.Verdict.{others_covered, covers_core_iff}
use xp_wellys_devfr_atc.FlightPhase.{FlightPhase}
use xp_wellys_devfr_atc.Clearance.{build_clearance_components}
use xp_wellys_devfr_atc.Clearance.Obligation.{IsStated, obligation-IsStated}
use xp_wellys_devfr_atc.Landing.{
  ActiveRunway, UserPosition, collect_finals, distance_to_threshold_nm, compute_landing_sequence,
}
use xp_wellys_devfr_atc.Landing.Order.{count_near, user_position-count_near}
use xp_wellys_devfr_atc.Tests.Data.{tower_frequencies, env}

lookup-Best_example :
    let target =
      fixed_double.to_nat (fixed_double.round (mul {F = Fixed} (lit 118250 3) (lit 1000 0))) in
    let r = Radio.lookup {F = Fixed} tower_frequencies (lit 118250 3) in
    ((r ≡ FrequencyType.unknown) ⊎ (heard target tower_frequencies r ≡ true))
    × Best target tower_frequencies r
lookup-Best_example = lookup-Best tower_frequencies (lit 118250 3)

covers_core_iff_example :
    readback_covers_core (Element.callsign ∷ Element.runway ∷ []) (Element.runway ∷ []) ≡ (
      has_element Element.callsign (Element.callsign ∷ Element.runway ∷ [])
      && not (has_element Element.callsign (Element.runway ∷ []))
      && (not (
            any (λ e. not (element_eq e Element.callsign)) (Element.callsign ∷ Element.runway ∷ []))
          || others_covered (Element.runway ∷ []) (Element.callsign ∷ Element.runway ∷ [])))
covers_core_iff_example =
    covers_core_iff (Element.callsign ∷ Element.runway ∷ []) (Element.runway ∷ [])

obligation-IsStated_example :
    let comp =
      build_clearance_components PilotIntent.request_taxi
        (("callsign", "D-EABC") ∷ ("runway", "25") ∷ [])
        "{callsign}, Rollhalt Piste {runway}, QNH {qnh}." in
    (rest : List Element) × (comp.required ≡ Element.callsign ∷ rest)
    × All (IsStated "{callsign}, Rollhalt Piste {runway}, QNH {qnh}." comp) rest
obligation-IsStated_example =
    obligation-IsStated PilotIntent.request_taxi (("callsign", "D-EABC") ∷ ("runway", "25") ∷ [])
      "{callsign}, Rollhalt Piste {runway}, QNH {qnh}."

abbrev runway_25 : ActiveRunway Fixed
runway_25 = record {
  threshold_lat = whole 48;
  threshold_lon = whole 8;
  heading_deg = whole 250;
  length_m = whole 2000;
  designator = "25";
}

abbrev on_base : UserPosition Fixed
on_base = record { lat = lit 4805 2; lon = lit 805 2 }

user_position-count_near_example :
    (compute_landing_sequence env.traffic on_base runway_25).user_position
    ≡ suc (
        count_near
          (distance_to_threshold_nm (lit 4805 2) (lit 805 2) runway_25)
          (collect_finals runway_25 0 env.traffic.targets))
user_position-count_near_example =
    user_position-count_near Fixed-IsOrdered env.traffic on_base runway_25
