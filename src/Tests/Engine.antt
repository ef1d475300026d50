-- ===== src/Tests/Engine.antt =====
-- The theorems of the engine at concrete inputs.
use xp_wellys_devfr_atc.Base.{◌≡◌, ◌↔◌, ◌⊎◌, ◌≤◌, false, true, String, List, [], some, ◌∷◌, refl}
use xp_wellys_devfr_atc.Base.Runs.{Run, codes, contains}
use xp_wellys_devfr_atc.Double.{lit, whole}
use xp_wellys_devfr_atc.Double.Fixed.{Fixed, fixed_double}
use xp_wellys_devfr_atc.State.{AtcState}
use xp_wellys_devfr_atc.Intent.{PilotIntent, intent_from_key}
use xp_wellys_devfr_atc.Context.{XplaneContext}
use xp_wellys_devfr_atc.World.{World}
use xp_wellys_devfr_atc.Dialog
use xp_wellys_devfr_atc.Env.{Env}
use xp_wellys_devfr_atc.Commands.{force_state}
use xp_wellys_devfr_atc.Traffic.{TrafficTarget, TrafficPhase}
use xp_wellys_devfr_atc.Advisor.{UserState, evaluate, no_advisories, airborne_advice}
use xp_wellys_devfr_atc.Engine.Poll.{user_state}
use xp_wellys_devfr_atc.Engine.{Plugin, Parsed, reset}
use xp_wellys_devfr_atc.Engine.Repair.{extract_digit_tokens, repair_invents_digits}
use xp_wellys_devfr_atc.Engine.Repair.Tokens.{count, repair_invents_digits_iff}
use xp_wellys_devfr_atc.Engine.Transcript.{
  Input, Pending, ClassifyResult, set_intent, lm_message, process_transcript, latch_flight_intent,
  is_traffic_reply, reads_back, answer_unclear, route,
}
use xp_wellys_devfr_atc.Engine.Transcript.Faithful.{IsPlausible, lm_message-IsPlausible}
use xp_wellys_devfr_atc.Engine.Transcript.Streak.{Counts, process_transcript-Counts}
use xp_wellys_devfr_atc.Engine.Session.{Event, advise, watch, hear, elsewhere, run}
use xp_wellys_devfr_atc.Engine.Session.Spacing.{AreSpaced, AreMinutesApart, run-AreSpaced}
use xp_wellys_devfr_atc.Tests.Data.{idle_world, ramp, aloft, env, says}

abbrev plugin : Plugin Fixed
plugin = record {
  world = idle_world;
  counters = record {
    profanity_warnings = 0;
    lm_inferences = 4;
    advisory_history = record {
      last_issued_secs = [];
      acknowledged_visual_secs = [];
      last_global_emit_secs = whole 0;
    };
    unclear_streak = 2;
    last_go_around_emit_secs = whole 0;
  };
}

-- A parser that never understands.
abbrev parse_nothing : World Fixed → String → XplaneContext Fixed → Parsed Fixed
parse_nothing w transcript ctx = record {
  message = says PilotIntent.unknown transcript;
  confidence = lit 2 1;
}

abbrev mumbled : Input Fixed
mumbled = record {
  transcript = "Rollhalt 25, QNH 1013";
  quality = lit 9 1;
  ctx = ramp;
  pilot_callsign = "D-EABC";
  now_secs = whole 130;
}

-- The answer of the engine without a language model.
mumbled_streak :
    (process_transcript env parse_nothing false mumbled plugin).0.counters.unclear_streak ≡ 3
unfolding process_transcript is_traffic_reply latch_flight_intent contains Dialog.init route
    reads_back answer_unclear
mumbled_streak = refl

process_transcript-Counts_example :
    Counts env 2 4 (process_transcript env parse_nothing true mumbled plugin)
process_transcript-Counts_example = process_transcript-Counts env parse_nothing true mumbled plugin

abbrev asked : Pending Fixed
asked = record {
  parsed = record {
    message = says PilotIntent.unknown "Rollhald 25, QNH 1013";
    confidence = lit 2 1;
  };
  ctx_snapshot = ramp;
  now_secs = whole 130;
  fallback_cs = "D-EABC";
  original_transcript = "Rollhald 25, QNH 1013";
  just_landed_snapshot = true;
  readback_pending_snapshot = false;
  valid = "READBACK" ∷ [];
}

abbrev repaired : ClassifyResult
repaired = record {
  success = true;
  intent_name = "READBACK";
  repaired_transcript = "Rollhalt 25, QNH 1013";
  whisper_fix = true;
}

-- The repair is taken.
repaired_text :
    (lm_message asked repaired "READBACK").message.raw_transcript ≡ "Rollhalt 25, QNH 1013"
unfolding lm_message repair_invents_digits contains
repaired_text = refl

lm_message-IsPlausible_example :
    let msg = set_intent (intent_from_key "READBACK") (lit 85 2) asked.parsed in
    (lm_message asked repaired "READBACK" ≡ msg)
    ⊎ (lm_message asked repaired "READBACK" ≡ record msg {
      message = record msg.message { raw_transcript = repaired.repaired_transcript };
    })
      × IsPlausible asked.original_transcript asked.just_landed_snapshot
          repaired.repaired_transcript
lm_message-IsPlausible_example = lm_message-IsPlausible asked repaired "READBACK"

repair_invents_digits_iff_example :
    (repair_invents_digits (codes "Piste 25 25") (codes "Piste 25") ≡ false) ↔ (
      (t : Run)
      → count t (extract_digit_tokens (codes "Piste 25"))
        ≤ count t (extract_digit_tokens (codes "Piste 25 25")))
repair_invents_digits_iff_example =
    repair_invents_digits_iff (codes "Piste 25 25") (codes "Piste 25")

-- A converging aircraft, three miles ahead.
abbrev ahead : TrafficTarget Fixed
ahead = record {
  modes_id = 7;
  callsign = "D-EFGH";
  icao_type = "C172";
  lat = whole 0;
  lon = whole 0;
  alt_msl_ft = whole 2500;
  alt_agl_ft = whole 1500;
  bearing_from_user_deg = whole 0;
  clock_position = whole 12;
  distance_to_user_nm = whole 3;
  altitude_diff_ft = whole 0;
  groundspeed_kts = whole 90;
  vertical_speed_fpm = whole 0;
  track_deg = whole 90;
  phase = TrafficPhase.cruise;
}

abbrev busy : Env Fixed
busy = record env { traffic = record { targets = ahead ∷ []; last_update_secs = whole 0 } }

abbrev flight : List (Event Fixed)
flight =
    elsewhere busy (force_state AtcState.tower_contact)
    ∷ advise busy aloft (whole 200)
    ∷ advise busy aloft (whole 210)
    ∷ watch busy aloft (whole 210)
    ∷ hear busy true mumbled
    ∷ advise busy aloft (whole 270)
    ∷ []

-- The user, in contact with the tower.
abbrev talking : UserState Fixed
talking = record (user_state aloft idle_world) { atc_state = AtcState.tower_contact }

-- The aircraft is called out.
call_of_flight :
    evaluate busy.traffic talking no_advisories (whole 200) ≡ some (airborne_advice talking ahead)
unfolding evaluate user_state no_advisories
call_of_flight = refl

run-AreSpaced_example :
    let r = run parse_nothing flight (reset plugin) (record { advisories = []; go_arounds = [] }) in
    AreSpaced r.1.advisories × AreMinutesApart r.1.go_arounds
run-AreSpaced_example = run-AreSpaced parse_nothing flight plugin
