-- ===== src/Tests/Runtime.antt =====
-- The snapshot, the hints and the choice of the runway at concrete inputs.
use xp_wellys_devfr_atc.Base.{
  ◌≤◌, length, All, ◌≡◌, ℕ, ◌⊎◌, inl, get_elem?, refl, true, false, some, none, List, [], ◌∷◌,
  String,
}
use xp_wellys_devfr_atc.Base.Runs.{text_of}
use xp_wellys_devfr_atc.Double.{whole, add}
use xp_wellys_devfr_atc.Double.Fixed.{Fixed, fixed_double, Fixed-IsOrdered}
use xp_wellys_devfr_atc.State.{AtcState, pattern, state_name}
use xp_wellys_devfr_atc.FlightPhase.{FlightPhase, phase_name}
use xp_wellys_devfr_atc.Radio.{AirportFrequencies, FacilityType, FrequencyType, frequency_type_name}
use xp_wellys_devfr_atc.Context.{RunwayInfo, RunwayEnd}
use xp_wellys_devfr_atc.Hints
use xp_wellys_devfr_atc.Hints.{
  HintRule, HintQuery, null_field, string_field, array_field, bool_field,
}
use xp_wellys_devfr_atc.RunwayChoice.{is_before, select_active_runway}
use xp_wellys_devfr_atc.RunwayChoice.Nearby.{
  Caches, IsContactable, find_nearby_airports, find_nearby_airports-IsContactable,
}
use xp_wellys_devfr_atc.RunwayChoice.Calm.{Unbeaten, select_active_runway-Unbeaten}
use xp_wellys_devfr_atc.Traffic.Update.{Slot, Tracker, Tick, no_targets}
use xp_wellys_devfr_atc.Traffic.Update.Current.{
  init_call, stop_call, tick_call, run, IsCurrent, run-IsCurrent,
}
use xp_wellys_devfr_atc.Tests.Data.{aloft}

abbrev end_at : String → Fixed → RunwayEnd Fixed
end_at number heading = record {
  number = number;
  lat = whole 48;
  lon = whole 8;
  heading_deg = heading;
}

abbrev grass : RunwayInfo Fixed
grass = record {
  end1 = end_at "07" (whole 70);
  end2 = end_at "25" (whole 250);
  width_m = whole 30;
  length_m = whole 900;
  surface_code = 3;
}

abbrev asphalt : RunwayInfo Fixed
asphalt = record grass {
  end1 = end_at "16" (whole 160);
  end2 = end_at "34" (whole 340);
  length_m = whole 800;
  surface_code = 1;
}

paved_in_calm : select_active_runway (grass ∷ asphalt ∷ []) (whole 250) (whole 2) ≡ "16"
unfolding select_active_runway
paved_in_calm = refl

hint_of_ground :
    Hints.lookup
      (record {
        is_object = true;
        state = string_field "IDLE";
        phase = array_field (some "PARKED" ∷ some "TAXI" ∷ []);
        facility = null_field;
        frequency_type = string_field "GROUND";
        tower_only = bool_field false;
        post_landing = string_field "any";
        intents = some "INITIAL_CALL_GROUND" ∷ none ∷ some "RADIO_CHECK" ∷ [];
      }
        ∷ [])
      pattern
      (record {
        state = AtcState.idle;
        phase = FlightPhase.taxi;
        facility = FacilityType.towered;
        frequency_type = FrequencyType.ground;
        tower_only = false;
        post_landing = true;
      })
    ≡ "INITIAL_CALL_GROUND" ∷ "RADIO_CHECK" ∷ []
unfolding Hints.lookup state_name phase_name text_of frequency_type_name
hint_of_ground = refl

abbrev runways : List (RunwayInfo Fixed)
runways = grass ∷ asphalt ∷ []

select_active_runway-Unbeaten_example :
    let name = select_active_runway runways (whole 250) (whole 2) in
    (i : ℕ) × (best : RunwayInfo Fixed) × (get_elem? runways i ≡ some best)
    × Unbeaten best runways
    × (((name ≡ best.end1.number) × (is_before best.end1.number best.end2.number ≡ true))
        ⊎ ((name ≡ best.end2.number) × (is_before best.end1.number best.end2.number ≡ false)))
select_active_runway-Unbeaten_example =
    select_active_runway-Unbeaten Fixed-IsOrdered grass (asphalt ∷ []) (whole 250) (whole 2) refl

abbrev slot_at : ℕ → Fixed → Slot Fixed
slot_at id x = record {
  x = x;
  y = whole 0;
  z = whole 0;
  modes_id = id;
  callsign = "DEABC";
  icao_type = "C172";
  v_msc = whole 50;
  vs = whole 0;
  psi = whole 90;
}

-- The third slot is empty, the fourth is not used.
abbrev traffic_tick : Tick Fixed
traffic_tick = record {
  enabled = true;
  has_handles = true;
  slots =
      slot_at 7 (whole 2)
      ∷ slot_at 8 (whole 1)
      ∷ slot_at 9 (whole 10000000)
      ∷ slot_at 0 (whole 0)
      ∷ [];
  to_world = λ x y z. (add x aloft.latitude, aloft.longitude, whole 1000);
  user = aloft;
  field_elev_ft = some (whole 500);
  elapsed_secs = whole 60;
}

abbrev untracked : Tracker Fixed
untracked = record { was_disabled = false; prev_phase = []; snapshot = no_targets }

run-IsCurrent_example : IsCurrent (
    run
      (init_call
        ∷ tick_call traffic_tick
        ∷ tick_call (record traffic_tick { enabled = false })
        ∷ stop_call
        ∷ tick_call traffic_tick
        ∷ [])
      untracked)
run-IsCurrent_example =
    run-IsCurrent Fixed-IsOrdered
      (init_call
        ∷ tick_call traffic_tick
        ∷ tick_call (record traffic_tick { enabled = false })
        ∷ stop_call
        ∷ tick_call traffic_tick
        ∷ [])
      untracked (tt, tt, inl tt)

abbrev tower_of : ℕ → AirportFrequencies
tower_of khz = record { freq_khz = khz; type = FrequencyType.tower } ∷ []

abbrev caches : Caches Fixed
caches = record {
  towered_cache_ready = true;
  pos_cache =
      ("EDTF", (whole 48, whole 8))
      ∷ ("EDTL", (whole 48, whole 8))
      ∷ ("LFGA", (whole 80, whole 8))
      ∷ [];
  freq_cache = ("EDTF", tower_of 118_250) ∷ ("LFGA", tower_of 120_000) ∷ [];
  name_cache = ("EDTF", "FREIBURG") ∷ [];
  ac_lat = whole 48;
  ac_lon = whole 8;
}

find_nearby_airports-IsContactable_example :
    (length (find_nearby_airports caches (whole 30) 5) ≤ 5)
    × All (IsContactable caches) (find_nearby_airports caches (whole 30) 5)
find_nearby_airports-IsContactable_example = find_nearby_airports-IsContactable caches (whole 30) 5
