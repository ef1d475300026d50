-- ===== src/State.antt =====
-- The states of the dialog and their names (src/atc/atc_state_machine.hpp and .cpp), and the
-- departure type (src/atc/flows/state_storage.hpp).
pub mod Names
use xp_wellys_devfr_atc.Base.{ℕ, Bool, String, Option, none, some, List, [], ◌∷◌, lookup, ◌==◌}

pub data AtcState : Type 0 where
  idle ground_contact taxi_cleared tower_contact departure_cleared : AtcState
  pattern_entry landing_cleared touch_and_go_cleared unicom_active en_route : AtcState

pub data DepartureType : Type 0 where
  pattern cross_country : DepartureType

abbrev pub state_index : AtcState → ℕ
state_index idle = 0
state_index ground_contact = 1
state_index taxi_cleared = 2
state_index tower_contact = 3
state_index departure_cleared = 4
state_index pattern_entry = 5
state_index landing_cleared = 6
state_index touch_and_go_cleared = 7
state_index unicom_active = 8
state_index en_route = 9

-- `==` on the enumeration.
abbrev pub state_eq : AtcState → AtcState → Bool
state_eq a b = state_index a == state_index b

-- The name of `DEPARTURE_CLEARED` reads the machine's departure type.
unfoldable pub state_name : DepartureType → AtcState → String
state_name _ idle = "IDLE"
state_name _ ground_contact = "GROUND_CONTACT"
state_name _ taxi_cleared = "TAXI_CLEARED"
state_name _ tower_contact = "TOWER_CONTACT"
state_name cross_country departure_cleared = "XC/DEPARTURE_CLEARED"
state_name pattern departure_cleared = "Pattern/DEPARTURE_CLEARED"
state_name _ pattern_entry = "Pattern/PATTERN_ENTRY"
state_name _ landing_cleared = "Pattern/LANDING_CLEARED"
state_name _ touch_and_go_cleared = "Pattern/TOUCH_AND_GO_CLEARED"
state_name _ unicom_active = "UNICOM_ACTIVE"
state_name _ en_route = "XC/EN_ROUTE"

-- `kMap` of `state_from_name`.
abbrev pub state_map : List (String × AtcState)
state_map =
    ("IDLE", idle)
    ∷ ("GROUND_CONTACT", ground_contact)
    ∷ ("TAXI_CLEARED", taxi_cleared)
    ∷ ("TOWER_CONTACT", tower_contact)
    ∷ ("UNICOM_ACTIVE", unicom_active)
    ∷ ("DEPARTURE_CLEARED", departure_cleared)
    ∷ ("Pattern/DEPARTURE_CLEARED", departure_cleared)
    ∷ ("XC/DEPARTURE_CLEARED", departure_cleared)
    ∷ ("PATTERN_ENTRY", pattern_entry)
    ∷ ("Pattern/PATTERN_ENTRY", pattern_entry)
    ∷ ("LANDING_CLEARED", landing_cleared)
    ∷ ("Pattern/LANDING_CLEARED", landing_cleared)
    ∷ ("TOUCH_AND_GO_CLEARED", touch_and_go_cleared)
    ∷ ("Pattern/TOUCH_AND_GO_CLEARED", touch_and_go_cleared)
    ∷ ("EN_ROUTE", en_route)
    ∷ ("XC/EN_ROUTE", en_route)
    ∷ []

unfoldable pub state_from_name : String → AtcState
state_from_name name = elim (lookup name state_map) [ none ↦ idle | some s ↦ s ]
