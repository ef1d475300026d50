-- ===== src/Flows/Coordinator.antt =====
-- The flow that a state belongs to (src/atc/flows/flow_coordinator.cpp).
use xp_wellys_devfr_atc.State.{
  AtcState, DepartureType, pattern, cross_country, departure_cleared, pattern_entry,
  landing_cleared, touch_and_go_cleared,
}

pub data ActiveFlow : Type 0 where
  ground_ops pattern_ops cross_country_ops : ActiveFlow

unfoldable pub active : DepartureType → AtcState → ActiveFlow
active cross_country departure_cleared = cross_country_ops
active pattern departure_cleared = pattern_ops
active _ pattern_entry = pattern_ops
active _ landing_cleared = pattern_ops
active _ touch_and_go_cleared = pattern_ops
active _ _ = ground_ops
