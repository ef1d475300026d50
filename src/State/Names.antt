-- ===== src/State/Names.antt =====
-- The names of the states, there and back.
use xp_wellys_devfr_atc.Base.{◌≡◌, refl, ap, sym, ◌∙◌}
use xp_wellys_devfr_atc.State.{
  AtcState, DepartureType, pattern, cross_country, idle, ground_contact, taxi_cleared,
  tower_contact, departure_cleared, pattern_entry, landing_cleared, touch_and_go_cleared,
  unicom_active, en_route, state_name, state_from_name,
}

-- The qualified name of a state reads back as that state, whatever the departure type.
from_name-name : (t : DepartureType) (s : AtcState) → state_from_name (state_name t s) ≡ s
unfolding state_name state_from_name
from_name-name pattern idle = refl
from_name-name pattern ground_contact = refl
from_name-name pattern taxi_cleared = refl
from_name-name pattern tower_contact = refl
from_name-name pattern departure_cleared = refl
from_name-name pattern pattern_entry = refl
from_name-name pattern landing_cleared = refl
from_name-name pattern touch_and_go_cleared = refl
from_name-name pattern unicom_active = refl
from_name-name pattern en_route = refl
from_name-name cross_country departure_cleared = refl
from_name-name cross_country idle = refl
from_name-name cross_country ground_contact = refl
from_name-name cross_country taxi_cleared = refl
from_name-name cross_country tower_contact = refl
from_name-name cross_country pattern_entry = refl
from_name-name cross_country landing_cleared = refl
from_name-name cross_country touch_and_go_cleared = refl
from_name-name cross_country unicom_active = refl
from_name-name cross_country en_route = refl

-- So no two states share a name, not even across the departure types.
pub name_inj : (t u : DepartureType) (r s : AtcState) → state_name t r ≡ state_name u s → r ≡ s
name_inj t u r s e = sym (from_name-name t r) ∙ ap state_from_name e ∙ from_name-name u s
