-- ===== src/Queries.antt =====
-- The accessors of the history (src/atc/atc_state_machine.cpp): the state before, the states of the
-- last seconds, the landing window and the exported line. `rbegin` walks the reversed history.
pub mod Windows
use xp_wellys_devfr_atc.Base.{
  Bool, true, false, not, ◌||◌, String, List, [], ◌∷◌, reverse, is_empty, concat, if◌then◌else◌,
}
use xp_wellys_devfr_atc.Double.{Double, ◌<?◌, sub}
use xp_wellys_devfr_atc.State.{
  AtcState, DepartureType, idle, landing_cleared, touch_and_go_cleared, departure_cleared, state_eq,
  state_name,
}
use xp_wellys_devfr_atc.Context.{XplaneContext}
use xp_wellys_devfr_atc.Machine.{Machine, StateHistoryEntry}

unfoldable pub is_landing : AtcState → Bool
is_landing s = state_eq s landing_cleared || state_eq s touch_and_go_cleared

module _ {F : Type 0} where
  abbrev newest_state : List (StateHistoryEntry F) → AtcState
  newest_state [] = idle
  newest_state (e ∷ es) = e.state

  unfoldable pub previous_state : Machine F → AtcState
  previous_state m = newest_state (reverse m.history)

  -- The walk of `at_airport_after_landing`, newest first.
  unfoldable pub landed_last : List (StateHistoryEntry F) → Bool
  unfolding is_landing
  landed_last [] = false
  landed_last (e ∷ es) =
      let rest = landed_last es in
      if state_eq e.state departure_cleared
      then false
      else if is_landing e.state
      then true
      else rest

  unfoldable pub at_airport_after_landing : XplaneContext F → Machine F → Bool
  unfolding landed_last is_landing
  at_airport_after_landing ctx m =
      if not ctx.on_ground
      then false
      else if is_landing m.state
      then true
      else landed_last (reverse m.history)

  -- The loop of `history_csv`, over (out, history).
  unfoldable pub csv_from : DepartureType → String → List (StateHistoryEntry F) → String
  csv_from t out [] = out
  csv_from t out (e ∷ es) =
      csv_from t (concat (out ∷ (if is_empty out then "" else ",") ∷ state_name t e.state ∷ [])) es

  unfoldable pub history_csv : Machine F → String
  unfolding csv_from
  history_csv m =
      let out = csv_from m.departure_type "" m.history in
      concat (out ∷ (if is_empty out then "" else ",") ∷ state_name m.departure_type m.state ∷ [])

module _ {F : Type 0} ⦃d : Double F⦄ where
  -- The walk of `was_recently_in`, newest first.
  unfoldable pub recent_in : AtcState → F → F → List (StateHistoryEntry F) → Bool
  recent_in s max_age_secs now_secs [] = false
  recent_in s max_age_secs now_secs (e ∷ es) =
      let rest = recent_in s max_age_secs now_secs es in
      if max_age_secs <? sub now_secs e.timestamp_secs
      then false
      else if state_eq e.state s
      then true
      else rest

  unfoldable pub was_recently_in : AtcState → F → F → Machine F → Bool
  unfolding recent_in
  was_recently_in s max_age_secs now_secs m =
      if state_eq m.state s then true else recent_in s max_age_secs now_secs (reverse m.history)

  unfoldable pub just_landed : F → F → Machine F → Bool
  just_landed now_secs window_secs m =
      was_recently_in landing_cleared window_secs now_secs m
      || was_recently_in touch_and_go_cleared window_secs now_secs m
