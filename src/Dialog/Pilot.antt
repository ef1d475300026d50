-- ===== src/Dialog/Pilot.antt =====
-- The pilot's answer to a traffic advisory (`handle_pilot` of src/atc/traffic_dialog.cpp).
pub mod Acknowledge
use xp_wellys_devfr_atc.Base.{
  ℕ, Bool, true, false, not, ◌||◌, String, Option, none, some, find, insert, ◌==◌, if◌then◌else◌,
}
use xp_wellys_devfr_atc.Double.{Double}
use xp_wellys_devfr_atc.Intent.{
  PilotMessage, intent_eq, traffic_in_sight, traffic_negative_contact, traffic_looking,
}
use xp_wellys_devfr_atc.Context.{XplaneContext}
use xp_wellys_devfr_atc.Templates.{fill}
use xp_wellys_devfr_atc.Templates
use xp_wellys_devfr_atc.Machine.{Machine}
use xp_wellys_devfr_atc.Traffic.{TrafficTarget, TrafficContext}
use xp_wellys_devfr_atc.Env.{Env}
use xp_wellys_devfr_atc.Vars.{Vars, build_vars}
use xp_wellys_devfr_atc.Dialog.{Dialog, DialogState}
use xp_wellys_devfr_atc.Dialog

pub record Reply : Type 0 where
  pub handled : Bool
  pub text : String
  pub acknowledged_with_visual : Bool

-- `Reply r;`
abbrev pub no_reply : Reply
no_reply = record { handled = false; text = ""; acknowledged_with_visual = false }

unfoldable pub is_traffic_intent : PilotMessage → Bool
is_traffic_intent msg =
    intent_eq msg.intent traffic_in_sight
    || intent_eq msg.intent traffic_negative_contact
    || intent_eq msg.intent traffic_looking

abbrev pub is_awaiting : DialogState → Bool
is_awaiting DialogState.awaiting_ack = true
is_awaiting DialogState.idle = false

module _ {F : Type 0} where
  unfoldable pub find_target : TrafficContext F → ℕ → Option (TrafficTarget F)
  find_target snap modes_id = find (λ t. t.modes_id == modes_id) snap.targets

module _ {F : Type 0} ⦃d : Double F⦄ where
  -- `%.0f` of the clock and of the distance.
  unfoldable pub inject_geometry : TrafficTarget F → Vars → Vars
  inject_geometry t vars =
      insert "distance" (d.print_fixed 0 t.distance_to_user_nm)
        (insert "clock" (d.print_fixed 0 t.clock_position) vars)

  unfoldable pub refreshed_vars : Option (TrafficTarget F) → Vars → Vars
  unfolding inject_geometry
  refreshed_vars none vars = insert "distance" "0" (insert "clock" "12" vars)
  refreshed_vars (some t) vars = inject_geometry t vars

  abbrev spoken : Env F → String → Vars → String
  spoken env key vars =
      fill (Templates.lookup env.templates true "TRAFFIC_DIALOG" key false).response_template vars

  unfoldable pub traffic_reply : Env F → PilotMessage → XplaneContext F → Machine F → Dialog → Reply
  unfolding refreshed_vars find_target
  traffic_reply env msg ctx m dialog =
      let vars = build_vars env m msg ctx in
      if intent_eq msg.intent traffic_in_sight
      then record {
        handled = true;
        text = spoken env "TRAFFIC_IN_SIGHT" vars;
        acknowledged_with_visual = true;
      }
      else record {
        handled = true;
        text =
            spoken env
              (if intent_eq msg.intent traffic_looking
                then "TRAFFIC_LOOKING"
                else "TRAFFIC_NEGATIVE_CONTACT")
              (refreshed_vars (find_target env.traffic dialog.pending_target_id) vars);
        acknowledged_with_visual = false;
      }

  -- The machine is read and not changed.
  unfoldable pub handle_pilot :
      Env F → PilotMessage → XplaneContext F → Machine F → Dialog → Dialog × Reply
  unfolding is_traffic_intent traffic_reply
  handle_pilot env msg ctx m dialog =
      if not (is_awaiting dialog.state)
      then (dialog, no_reply)
      else if not (is_traffic_intent msg)
      then (dialog, no_reply)
      else (Dialog.init, traffic_reply env msg ctx m dialog)
