-- ===== src/Engine/Session/Spacing.antt =====
-- The pauses between the controller's own calls.
use xp_wellys_devfr_atc.Base.{
  ℕ, ◌≡◌, ◌⊎◌, inl, inr, refl, ap, ◌∙◌, Bool, true, false, String, Option, none, some, List, [],
  ◌∷◌, ◌==◌, Bool-cases, if◌then◌else◌, arith,
}
use xp_wellys_devfr_atc.Double.{Double, ◌<?◌, sub, whole}
use xp_wellys_devfr_atc.Context.{XplaneContext}
use xp_wellys_devfr_atc.World.{World}
use xp_wellys_devfr_atc.Env.{Env}
use xp_wellys_devfr_atc.Dialog.Pilot.{is_awaiting}
use xp_wellys_devfr_atc.Advisor.{
  TrafficAdvisory, no_advisories, time_of, set_time, mark_emitted, cooling_down,
}
use xp_wellys_devfr_atc.Advisor.Spacing.{IsPaused, evaluate-Advises}
use xp_wellys_devfr_atc.Engine.{Counters, Plugin, Parsed, reset}
use xp_wellys_devfr_atc.Engine.Poll.{
  must_go_around, poll_go_around, user_state, emit, poll_traffic_advisory,
}
use xp_wellys_devfr_atc.Commands.{execute}
use xp_wellys_devfr_atc.Engine.Transcript.{process_transcript, on_classified}
use xp_wellys_devfr_atc.Engine.Session.{
  Event, advise, watch, hear, settle, elsewhere, Calls, log_advisory, log_time, handle, run,
}
use xp_wellys_devfr_atc.Engine.Session.Clocks.{
  SameClocks, process_transcript-SameClocks, on_classified-SameClocks,
}

module _ {F : Type 0} where
  -- When the aircraft was last called out.
  abbrev pub last_about : ℕ → List (F × TrafficAdvisory) → Option F
  last_about id [] = none
  last_about id ((t, adv) ∷ log) = if adv.modes_id == id then some t else last_about id log

  -- When anything was last called out.
  abbrev pub last_any : List (F × TrafficAdvisory) → Option F
  last_any [] = none
  last_any ((t, adv) ∷ log) = some t

  abbrev pub last_time : List F → Option F
  last_time [] = none
  last_time (t ∷ log) = some t

  time_of-set_time :
      (id j : ℕ) (t : F) (times : List (ℕ × F))
      → time_of j (set_time id t times) ≡ (if id == j then some t else time_of j times)
  time_of-set_time id j t [] = refl
  time_of-set_time id j t ((k, u) ∷ times) = ground (arith, time_of-set_time id j t times)

module _ {F : Type 0} ⦃d : Double F⦄ where
  -- Each call-out comes 20 s after any and 60 s after one about the same aircraft; a warning on the
  -- ground, 15 s and 30 s.
  abbrev pub AreSpaced : List (F × TrafficAdvisory) → Type 0
  AreSpaced [] = Unit
  AreSpaced ((t, adv) ∷ log) =
      (cooling_down (last_any log) t (if adv.requires_ack then whole 20 else whole 15) ≡ false)
      × (cooling_down (last_about adv.modes_id log) t
            (if adv.requires_ack then whole 60 else whole 30)
          ≡ false)
      × AreSpaced log

  -- Each go-around comes 60 s after the one before.
  abbrev pub AreMinutesApart : List F → Type 0
  AreMinutesApart [] = Unit
  AreMinutesApart (t ∷ log) =
      (cooling_down (last_time log) t (whole 60) ≡ false) × AreMinutesApart log

  -- The clocks hold what the log says.
  abbrev Recorded : Counters F → Calls F → Type 0
  Recorded c calls =
      ((id : ℕ) → time_of id c.advisory_history.last_issued_secs ≡ last_about id calls.advisories)
      × ((last_any calls.advisories ≡ none)
          ⊎ (last_any calls.advisories ≡ some c.advisory_history.last_global_emit_secs))
      × ((last_time calls.go_arounds ≡ none)
          ⊎ (last_time calls.go_arounds ≡ some c.last_go_around_emit_secs))

  abbrev Holds : Plugin F × Calls F → Type 0
  Holds r = Recorded r.0.counters r.1 × AreSpaced r.1.advisories × AreMinutesApart r.1.go_arounds

  -- If the clock's pause is over, so is the log's.
  rested :
      (last : Option F) (t now_secs cooldown : F)
      → (last ≡ none) ⊎ (last ≡ some t)
      → (sub now_secs t <? cooldown) ≡ false
      → cooling_down last now_secs cooldown ≡ false
  unfolding cooling_down
  rested last t now_secs cooldown (inl e) h = rw e refl
  rested last t now_secs cooldown (inr e) h = rw e h

  same-Holds :
      (c' : Counters F) (w' : World F) (p : Plugin F) (calls : Calls F)
      → SameClocks p.counters c'
      → Holds (p, calls)
      → Holds (record { world = w'; counters = c' }, calls)
  same-Holds c' w' p calls (issued, any, go) ((r, s, g), spaced, apart) =
      ((λ id. ap (time_of id) issued ∙ r id, rw any s, rw go g), spaced, apart)

  paused-spaced :
      (ack : Bool) (id : ℕ) (now_secs : F) (c : Counters F) (calls : Calls F)
      → Recorded c calls
      → IsPaused c.advisory_history now_secs id ack
      → (cooling_down (last_any calls.advisories) now_secs (if ack then whole 20 else whole 15)
          ≡ false)
        × (cooling_down
              (last_about id calls.advisories)
              now_secs
              (if ack then whole 60 else whole 30)
            ≡ false)
  paused-spaced true id now_secs c calls (r, s, _) paused =
      (rested _ _ now_secs (whole 20) s paused.0, rw (← r id) paused.1)
  paused-spaced false id now_secs c calls (r, s, _) paused =
      (rested _ _ now_secs (whole 15) s paused.0, rw (← r id) paused.1)

  emit-Holds :
      (now_secs : F) (adv : TrafficAdvisory) (p : Plugin F) (calls : Calls F)
      → IsPaused p.counters.advisory_history now_secs adv.modes_id adv.requires_ack
      → Holds (p, calls)
      → Holds
          (emit now_secs adv p, record calls { advisories = (now_secs, adv) ∷ calls.advisories })
  unfolding emit mark_emitted
  emit-Holds now_secs adv p calls paused ((r, s, g), spaced, apart) =
      let issued = p.counters.advisory_history.last_issued_secs in
      let since =
        paused-spaced adv.requires_ack adv.modes_id now_secs p.counters calls (r, s, g) paused in
      (
        (
          λ id.
              time_of-set_time adv.modes_id id now_secs issued
              ∙ ap (λ o. if adv.modes_id == id then some now_secs else o) (r id),
          inr refl,
          g,
        ),
        (since.0, since.1, spaced),
        apart,
      )

  advise-Holds :
      (env : Env F) (ctx : XplaneContext F) (now_secs : F) (p : Plugin F) (calls : Calls F)
      → Holds (p, calls)
      → let (p', given) = poll_traffic_advisory env ctx now_secs p in
        Holds (p', record calls { advisories = log_advisory now_secs given calls.advisories })
  unfolding poll_traffic_advisory
  advise-Holds env ctx now_secs p calls h =
      let history = p.counters.advisory_history in
      elim (Bool-cases (is_awaiting p.world.dialog.state)) [
        | inl e ↦ rw (e, poll_traffic_advisory) h
        | inr e ↦ elim (evaluate-Advises env.traffic (user_state ctx p.world) history now_secs) [
          | inl g ↦ rw (e, g, poll_traffic_advisory) h
          | inr (adv, g, paused, _) ↦
              rw (e, g, poll_traffic_advisory) (emit-Holds now_secs adv p calls paused h)
        ]
      ]

  must_go_around-rested :
      (env : Env F) (ctx : XplaneContext F) (now_secs : F) (p : Plugin F)
      → must_go_around env ctx now_secs p ≡ true
      → (sub now_secs p.counters.last_go_around_emit_secs <? whole 60) ≡ false
  unfolding must_go_around
  must_go_around-rested env ctx now_secs p h = ground arith

  watch-Holds :
      (env : Env F) (ctx : XplaneContext F) (now_secs : F) (p : Plugin F) (calls : Calls F)
      → Holds (p, calls)
      → let (p', text) = poll_go_around env ctx now_secs p in
        Holds (p', record calls { go_arounds = log_time now_secs text calls.go_arounds })
  unfolding poll_go_around
  watch-Holds env ctx now_secs p calls h = elim (Bool-cases (must_go_around env ctx now_secs p)) [
    | inr e ↦ rw (e, poll_go_around) h
    | inl e ↦
        let ((r, s, g), spaced, apart) = h in
        let since =
          rested (last_time calls.go_arounds) _ now_secs (whole 60) g
            (must_go_around-rested env ctx now_secs p e) in
        rw (e, poll_go_around) ((r, s, inr refl), spaced, (since, apart))
  ]

module _ {F : Type 0} ⦃d : Double F⦄ (parse : World F → String → XplaneContext F → Parsed F) where
  handle-Holds :
      (e : Event F) (p : Plugin F) (calls : Calls F)
      → Holds (p, calls)
      → Holds (handle parse e p calls)
  unfolding handle
  handle-Holds (advise env ctx now_secs) p calls h = advise-Holds env ctx now_secs p calls h
  handle-Holds (watch env ctx now_secs) p calls h = watch-Holds env ctx now_secs p calls h
  handle-Holds (hear env lm_ready input) p calls h =
      let p' = (process_transcript env parse lm_ready input p).0 in
      same-Holds p'.counters p'.world p calls
        (process_transcript-SameClocks env parse lm_ready input p) h
  handle-Holds (settle env q result) p calls h =
      let p' = (on_classified env q result p).0 in
      same-Holds p'.counters p'.world p calls (on_classified-SameClocks env q result p) h
  handle-Holds (elsewhere env c) p calls h =
      same-Holds p.counters (execute env c p.world) p calls (refl, refl, refl) h

  run-Holds :
      (es : List (Event F)) (p : Plugin F) (calls : Calls F)
      → Holds (p, calls)
      → Holds (run parse es p calls)
  unfolding run
  run-Holds [] p calls h = h
  run-Holds (e ∷ es) p calls h = run-Holds es _ _ (handle-Holds e p calls h)

  -- From a reset on, whatever is polled, transmitted, classified or done elsewhere, and in any order, the
  -- controller's own calls keep their pauses: a traffic advisory comes at least 20 s after the call-out
  -- before it and 60 s after the last about the same aircraft, a warning on the ground 15 s and 30 s,
  -- and a go-around 60 s after the one before.
  pub run-AreSpaced :
      (es : List (Event F)) (p : Plugin F)
      → let calls = (run parse es (reset p) (record { advisories = []; go_arounds = [] })).1 in
        AreSpaced calls.advisories × AreMinutesApart calls.go_arounds
  unfolding reset no_advisories
  run-AreSpaced es p =
      let start : Calls F = record { advisories = []; go_arounds = [] } in
      let held = run-Holds es (reset p) start ((λ id. refl, inl refl, inl refl), tt, tt) in
      (held.1, held.2)
