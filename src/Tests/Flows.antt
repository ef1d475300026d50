-- ===== src/Tests/Flows.antt =====
-- The theorems of the flows and of the classification at concrete inputs.
use xp_wellys_devfr_atc.Base.{
  ◌≡◌, ◌⊎◌, refl, true, false, not, none, ◌&&◌, is_empty, text_eq, lookup, any, keep, [], ◌∷◌,
  or_empty, suc, get_elem?, ℕ, some, All,
}
use xp_wellys_devfr_atc.Double.{whole, ◌<?◌, lit}
use xp_wellys_devfr_atc.Double.Fixed.{Fixed, fixed_double}
use xp_wellys_devfr_atc.State.{AtcState, state_eq}
use xp_wellys_devfr_atc.Intent.{PilotIntent, PilotMessage}
use xp_wellys_devfr_atc.Radio.{FrequencyType}
use xp_wellys_devfr_atc.Context.{XplaneContext}
use xp_wellys_devfr_atc.Machine.{set_last_now_secs}
use xp_wellys_devfr_atc.Vars.{build_vars}
use xp_wellys_devfr_atc.World.{World}
use xp_wellys_devfr_atc.Response.{reply, proceed}
use xp_wellys_devfr_atc.Traffic.{
  TrafficPhase, TrafficTarget, traffic_phase_eq, TrafficContext, final,
}
use xp_wellys_devfr_atc.Flows.Ground.{say, apply_initial_call_conformance}
use xp_wellys_devfr_atc.Flows.CrossCountry.{check_airport_change}
use xp_wellys_devfr_atc.Flows.CrossCountry.Leave.{HasLeft, check_airport_change-outcome}
use xp_wellys_devfr_atc.InitialCall.{ConformanceNode, build_request_prompt}
use xp_wellys_devfr_atc.Env.{Env}
use xp_wellys_devfr_atc.Flows.Ground.FirstCall.{
  is_absent, owed, apply_initial_call_conformance-outcome,
}
use xp_wellys_devfr_atc.Landing.{
  ActiveRunway, UserPosition, distance_to_threshold_nm, compute_landing_sequence,
}
use xp_wellys_devfr_atc.Landing.Ahead.{follow_target-ahead}
use xp_wellys_devfr_atc.Landing.Occupied.{Blocks, runway_occupied-Blocks}
use xp_wellys_devfr_atc.Tests.Data.{idle_machine, idle_world, ramp, env, says}

abbrev unicom : XplaneContext Fixed
unicom = record ramp { frequency_type = FrequencyType.unicom }

-- Another aircraft that rolls out.
abbrev roller : TrafficTarget Fixed
roller = record {
  modes_id = 3;
  callsign = "D-EXYZ";
  icao_type = "C172";
  lat = whole 48;
  lon = whole 8;
  alt_msl_ft = whole 820;
  alt_agl_ft = whole 20;
  bearing_from_user_deg = whole 90;
  clock_position = whole 3;
  distance_to_user_nm = whole 1;
  altitude_diff_ft = whole 0;
  groundspeed_kts = whole 55;
  vertical_speed_fpm = whole 0;
  track_deg = whole 250;
  phase = TrafficPhase.final;
}

-- The nearest airport changes from EDTF to EDTL while the aircraft is en route.
abbrev en_route_world : World Fixed
en_route_world = record idle_world { machine = record idle_machine { state = AtcState.en_route } }

abbrev lahr : XplaneContext Fixed
lahr = record ramp { nearest_airport_id = "EDTL" }

check_airport_change-outcome_example :
    let changed =
      not (is_empty lahr.nearest_airport_id)
      && state_eq en_route_world.machine.state AtcState.en_route
      && not (is_empty en_route_world.last_airport_id)
      && not (text_eq lahr.nearest_airport_id en_route_world.last_airport_id) in
    let w' = check_airport_change lahr (whole 101) en_route_world in
    (changed ≡ true
      × HasLeft en_route_world.machine w'.machine
      × w'.last_airport_id ≡ lahr.nearest_airport_id)
    ⊎ (changed ≡ false × w'.machine ≡ set_last_now_secs (whole 101) en_route_world.machine)
check_airport_change-outcome_example = check_airport_change-outcome lahr (whole 101) en_route_world

-- A first call that names its position, but no ATIS letter.
abbrev first_call : PilotMessage
first_call = record (says PilotIntent.initial_call_ground "Cessna 172 am GAT") {
  has_position = true;
}

abbrev node : ConformanceNode
node = record {
  required = "position" ∷ "atis_letter" ∷ [];
  recommended = "aircraft_type" ∷ [];
  element_keywords = ("aircraft_type", "Cessna" ∷ []) ∷ [];
  element_prompts = ("atis_letter", "Information") ∷ [];
  missing_response = none;
}

abbrev school : Env Fixed
school = record env {
  settings = record env.settings { atc_profile = "DE"; bzf_strict_mode = true };
  conformance = record { loaded = true; nodes = ("INITIAL_CALL_GROUND", node) ∷ [] };
}

apply_initial_call_conformance-outcome_example :
    (any (is_absent school first_call ramp node) (owed school first_call ramp node) ≡ false
      × apply_initial_call_conformance school first_call ramp idle_machine
        ≡ (idle_machine, proceed tt))
    ⊎ (any (is_absent school first_call ramp node) (owed school first_call ramp node) ≡ true
        × apply_initial_call_conformance school first_call ramp idle_machine ≡ (
          idle_machine,
          reply (
              say
                (build_request_prompt school.conformance "INITIAL_CALL_GROUND"
                  (or_empty (lookup "callsign" (build_vars school idle_machine first_call ramp)))
                  (keep (is_absent school first_call ramp node) (owed school first_call ramp node)))
                AtcState.idle),
        ))
apply_initial_call_conformance-outcome_example =
    apply_initial_call_conformance-outcome school first_call ramp idle_machine node refl refl refl

abbrev piste_25 : ActiveRunway Fixed
piste_25 = record {
  threshold_lat = whole 48;
  threshold_lon = whole 8;
  heading_deg = whole 250;
  length_m = whole 2000;
  designator = "25";
}

abbrev behind : UserPosition Fixed
behind = record { lat = lit 4805 2; lon = lit 805 2 }

-- One aircraft on final.
abbrev one_on_final : TrafficContext Fixed
one_on_final = record { targets = roller ∷ []; last_update_secs = whole 0 }

follow_target-ahead_example :
    let r = compute_landing_sequence one_on_final behind piste_25 in
    ((r.user_position ≡ 1) × (r.follow_target ≡ none))
    ⊎ (n : ℕ) × (i : ℕ) × (t : TrafficTarget Fixed) × (r.user_position ≡ suc (suc n))
      × (r.follow_target ≡ some t)
      × (get_elem? one_on_final.targets i ≡ some t)
      × (traffic_phase_eq t.phase final ≡ true)
      × ((distance_to_threshold_nm behind.lat behind.lon piste_25
            <? distance_to_threshold_nm t.lat t.lon piste_25)
          ≡ false)
follow_target-ahead_example = follow_target-ahead one_on_final behind piste_25

-- One aircraft that has landed.
abbrev one_landed : TrafficContext Fixed
one_landed = record {
  targets = record roller { phase = TrafficPhase.landed } ∷ [];
  last_update_secs = whole 0;
}

runway_occupied-Blocks_example :
    let r = compute_landing_sequence one_landed behind piste_25 in
    ((r.runway_occupied ≡ false)
      × (r.occupant ≡ none)
      × All (λ (t : TrafficTarget Fixed). ¬ Blocks piste_25 t) one_landed.targets)
    ⊎ (i : ℕ) × (t : TrafficTarget Fixed) × (r.runway_occupied ≡ true)
      × (r.occupant ≡ some t)
      × (get_elem? one_landed.targets i ≡ some t)
      × Blocks piste_25 t
runway_occupied-Blocks_example = runway_occupied-Blocks one_landed behind piste_25
