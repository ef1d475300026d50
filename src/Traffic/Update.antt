-- ===== src/Traffic/Update.antt =====
-- One tick of the traffic snapshot (src/data/traffic_context_runtime.cpp). What the simulator
-- reports of its slots 1 to 63 is a list, and its conversion of coordinates an argument. The wake
-- category is left out.
pub mod Current
use xp_wellys_devfr_atc.Base.{
  ℕ, Bool, true, false, not, ◌&&◌, ◌||◌, String, Option, none, some, List, [], ◌∷◌, ◌==◌, any, keep,
  text_eq, is_empty, if◌then◌else◌,
}
use xp_wellys_devfr_atc.Double.{Double, ◌<?◌, sub, mul, lit, whole}
use xp_wellys_devfr_atc.Context.{XplaneContext, RunwayInfo, RunwayEnd}
use xp_wellys_devfr_atc.Geometry.{bearing_deg, distance_nm, clock_position}
use xp_wellys_devfr_atc.Traffic.{TrafficPhase, TrafficTarget, TrafficContext, unknown}
use xp_wellys_devfr_atc.Traffic.Classify.{AirportRunwayHints, classify}

pub record Slot (F : Type 0) : Type 0 where
  pub x : F
  pub y : F
  pub z : F
  pub modes_id : ℕ
  pub callsign : String
  pub icao_type : String
  pub v_msc : F
  pub vs : F
  pub psi : F

-- The static variables, and the snapshot.
pub record Tracker (F : Type 0) : Type 0 where
  pub was_disabled : Bool
  pub prev_phase : List (ℕ × TrafficPhase)
  pub snapshot : TrafficContext F

-- What one tick reads; an unknown elevation is `none`.
pub record Tick (F : Type 0) : Type 0 where
  pub enabled : Bool
  pub has_handles : Bool
  pub slots : List (Slot F)
  pub to_world : F → F → F → F × F × F
  pub user : XplaneContext F
  pub field_elev_ft : Option F
  pub elapsed_secs : F

abbrev pub phase_before : ℕ → List (ℕ × TrafficPhase) → TrafficPhase
phase_before id [] = unknown
phase_before id ((k, phase) ∷ phases) = if k == id then phase else phase_before id phases

abbrev set_phase : ℕ → TrafficPhase → List (ℕ × TrafficPhase) → List (ℕ × TrafficPhase)
set_phase id phase [] = (id, phase) ∷ []
set_phase id phase ((k, old) ∷ phases) =
    if k == id then (k, phase) ∷ phases else (k, old) ∷ set_phase id phase phases

module _ {F : Type 0} ⦃d : Double F⦄ where
  abbrev pub no_targets : TrafficContext F
  no_targets = record { targets = []; last_update_secs = whole 0 }

  unfoldable pub init : Tracker F → Tracker F
  init s = record s { snapshot = no_targets }

  unfoldable pub stop : Tracker F → Tracker F
  stop s = record s { snapshot = no_targets }

  abbrev hints_at : XplaneContext F → RunwayEnd F → AirportRunwayHints F
  hints_at user end = record {
    airport_lat = user.airport_lat;
    airport_lon = user.airport_lon;
    threshold_lat = end.lat;
    threshold_lon = end.lon;
    runway_heading_deg = end.heading_deg;
  }

  -- The first runway with the active end.
  unfoldable pub hints_among : XplaneContext F → List (RunwayInfo F) → Option (AirportRunwayHints F)
  hints_among user [] = none
  hints_among user (rw ∷ runways) =
      let later = hints_among user runways in
      if text_eq rw.end1.number user.active_runway
      then some (hints_at user rw.end1)
      else if text_eq rw.end2.number user.active_runway
      then some (hints_at user rw.end2)
      else later

  unfoldable pub runway_hints : XplaneContext F → Option (AirportRunwayHints F)
  unfolding hints_among
  runway_hints user =
      let is_placed =
        not (d.eq user.airport_lat (whole 0)) || not (d.eq user.airport_lon (whole 0)) in
      if not (is_empty user.active_runway) && is_placed then hints_among user user.runways else none

  -- Is the slot used?
  abbrev pub is_used : Slot F → Bool
  is_used slot =
      not (whole 9999999 <? slot.x || whole 9999999 <? slot.y || whole 9999999 <? slot.z)
      && not (slot.modes_id == 0)

  -- The height over the field, at least 0.
  unfoldable pub agl_over : Option F → F → F
  agl_over none alt_msl_ft = whole 0
  agl_over (some elev) alt_msl_ft =
      let agl = sub alt_msl_ft elev in if agl <? whole 0 then whole 0 else agl

  -- The target before it is classified.
  unfoldable pub target_of : Tick F → Slot F → TrafficTarget F
  unfolding agl_over
  target_of tick slot =
      let user = tick.user in
      let (lat, lon, alt_m) = tick.to_world slot.x slot.y slot.z in
      let alt_msl_ft = mul alt_m (lit 328084 5) in
      let bearing = bearing_deg user.latitude user.longitude lat lon in
      record {
        modes_id = slot.modes_id;
        callsign = slot.callsign;
        icao_type = slot.icao_type;
        lat = lat;
        lon = lon;
        alt_msl_ft = alt_msl_ft;
        alt_agl_ft = agl_over tick.field_elev_ft alt_msl_ft;
        bearing_from_user_deg = bearing;
        clock_position = clock_position user.heading_true bearing;
        distance_to_user_nm = distance_nm user.latitude user.longitude lat lon;
        altitude_diff_ft = sub alt_msl_ft user.altitude_ft_msl;
        groundspeed_kts = mul slot.v_msc (lit 194384 5);
        vertical_speed_fpm = slot.vs;
        track_deg = slot.psi;
        phase = unknown;
      }

  unfoldable pub phase_of :
      Option F → Option (AirportRunwayHints F) → TrafficPhase → TrafficTarget F → TrafficPhase
  unfolding classify
  phase_of none hints prev t = unknown
  phase_of (some elev) hints prev t = classify t prev hints

  -- The loop over (prev_phase, slots): the targets in slot order, and the phases.
  unfoldable pub collect :
      Tick F
      → List (ℕ × TrafficPhase)
      → List (Slot F)
      → List (TrafficTarget F) × List (ℕ × TrafficPhase)
  unfolding target_of phase_of runway_hints
  collect tick phases [] = ([], phases)
  collect tick phases (slot ∷ slots) =
      let t = target_of tick slot in
      let phase =
        phase_of tick.field_elev_ft (runway_hints tick.user) (phase_before t.modes_id phases) t in
      let (targets, phases') = collect tick (set_phase t.modes_id phase phases) slots in
      let passed = collect tick phases slots in
      if is_used slot && not (whole 40 <? t.distance_to_user_nm)
      then (record t { phase = phase } ∷ targets, phases')
      else passed

  -- `std::sort`; where two are equally far, this keeps their order.
  unfoldable pub insert_target : TrafficTarget F → List (TrafficTarget F) → List (TrafficTarget F)
  insert_target t [] = t ∷ []
  insert_target t (u ∷ us) =
      let rest = insert_target t us in
      if u.distance_to_user_nm <? t.distance_to_user_nm then u ∷ rest else t ∷ u ∷ us

  unfoldable pub sort_targets : List (TrafficTarget F) → List (TrafficTarget F)
  unfolding insert_target
  sort_targets [] = []
  sort_targets (t ∷ ts) = insert_target t (sort_targets ts)

  unfoldable pub update : Tick F → Tracker F → Tracker F
  unfolding collect sort_targets
  update tick s =
      let (targets, phases) = collect tick s.prev_phase tick.slots in
      let seen = λ (e : ℕ × TrafficPhase). any (λ t. t.modes_id == e.0) targets in
      if not tick.enabled
      then (if s.was_disabled then s else record s { was_disabled = true; snapshot = no_targets })
      else if not tick.has_handles
      then record s { was_disabled = false }
      else record {
        was_disabled = false;
        prev_phase = keep seen phases;
        snapshot = record { targets = sort_targets targets; last_update_secs = tick.elapsed_secs };
      }
