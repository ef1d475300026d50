-- ===== src/Tests/Broadcast.antt =====
-- The ATIS at concrete inputs.
use xp_wellys_devfr_atc.Base.{◌≡◌, ◌≤◌, ◌<◌, ◌-◌, refl, List, [], ◌∷◌, length}
use xp_wellys_devfr_atc.Double.{whole}
use xp_wellys_devfr_atc.Double.Fixed.{Fixed, fixed_double}
use xp_wellys_devfr_atc.Context.{XplaneContext}
use xp_wellys_devfr_atc.Machine.{Machine}
use xp_wellys_devfr_atc.Atis.{at_start, check_for_update}
use xp_wellys_devfr_atc.Atis.Letter.{Call, start, update, run, letter_after, ArePaced, run-ArePaced}
use xp_wellys_devfr_atc.Atis.Text.{format_clouds}
use xp_wellys_devfr_atc.Tests.Data.{idle_machine, ramp}

abbrev released : Machine Fixed
released = record idle_machine { assigned_runway = "" }

-- The other end of the runway.
abbrev turned : XplaneContext Fixed
turned = record ramp { active_runway = "07" }

abbrev calls : List (Call Fixed)
calls =
    start
    ∷ update released ramp (whole 10)
    ∷ update released turned (whole 200)
    ∷ update released turned (whole 400)
    ∷ update released ramp (whole 500)
    ∷ update released ramp (whole 701)
    ∷ []

-- The second change waits for its five minutes.
log_of_calls : (run calls at_start []).1 ≡ whole 701 ∷ whole 400 ∷ []
unfolding run check_for_update
log_of_calls = refl

letter_of_calls : (run calls at_start []).0.letter ≡ b'C'
unfolding run check_for_update
letter_of_calls = refl

run-ArePaced_example :
    let (s, log) = run calls at_start [] in
    (s.letter ≡ letter_after (length log))
    × (b'A' ≤ s.letter)
    × (s.letter - b'A' < 26)
    × ArePaced log
run-ArePaced_example = run-ArePaced calls

no_clouds : format_clouds {F = Fixed} 3 (whole 50) ≡ "Wolkenlos."
unfolding format_clouds
no_clouds = refl
