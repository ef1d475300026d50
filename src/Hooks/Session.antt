-- ===== src/Hooks/Session.antt =====
-- The end of a session, and the readback flag, through the hooks.
use xp_wellys_devfr_atc.Base.{
  ◌≡◌, refl, ◌∙◌, true, false, String, is_empty, inl, inr, Bool-cases, arith,
}
use xp_wellys_devfr_atc.State.{AtcState, idle, state_eq}
use xp_wellys_devfr_atc.Intent.{PilotMessage, intent_eq, readback}
use xp_wellys_devfr_atc.Context.{XplaneContext}
use xp_wellys_devfr_atc.Readback.{ClearanceComponents}
use xp_wellys_devfr_atc.Machine.{Machine, transition_to}
use xp_wellys_devfr_atc.Machine.Transition.{Kept-transition_to, state-transition_to}
use xp_wellys_devfr_atc.World.{release_runway, release_callsign, release_locks}
use xp_wellys_devfr_atc.World.Fresh.{IsReleased, IsReleased-release_locks}
use xp_wellys_devfr_atc.Env.{Env}
use xp_wellys_devfr_atc.Response.{Response}
use xp_wellys_devfr_atc.Hooks.{
  track_readback, drop_stale_readback, lock_runway, lock_callsign, track_departure,
  apply_transition, end_session, advance_name, advance_tower_only, remember_response, settle,
  apply_post_transition_hooks,
}

module _ {F : Type 0} where
  state-release_locks : (m : Machine F) → (release_locks m).state ≡ m.state
  unfolding release_locks release_runway release_callsign
  state-release_locks m = ground arith

  state-track_departure :
      (prev : AtcState) (msg : PilotMessage) (resp : Response) (m : Machine F)
      → (track_departure prev msg resp m).state ≡ m.state
  unfolding track_departure
  state-track_departure prev msg resp m = ground arith

  state-apply_transition :
      (msg : PilotMessage) (resp : Response) (m : Machine F)
      → is_empty resp.text ≡ false
      → (apply_transition msg resp m).state ≡ resp.next_state
  unfolding apply_transition
  state-apply_transition msg resp m h =
      rw h (state-track_departure m.state msg resp _ ∙ state-transition_to _ _ _)

  state-end_session : (resp : Response) (m : Machine F) → (end_session resp m).state ≡ m.state
  unfolding end_session
  state-end_session resp m = elim (Bool-cases (state_eq resp.next_state idle)) [
    | inl e ↦ rw e (state-release_locks m)
    | inr e ↦ rw e refl
  ]

  -- What the blocks before the tower-only advance leave: the state of a spoken response, and, where
  -- that is IDLE, no runway and no callsign.
  pub settle-state :
      (msg : PilotMessage) (ctx : XplaneContext F) (resp : Response) (c : ClearanceComponents)
      (m : Machine F)
      → is_empty resp.text ≡ false
      → (settle msg ctx resp c m).state ≡ resp.next_state
  unfolding settle
  settle-state msg ctx resp c m h = state-end_session resp _ ∙ state-apply_transition msg resp _ h

  pub settle-IsReleased :
      (msg : PilotMessage) (ctx : XplaneContext F) (resp : Response) (c : ClearanceComponents)
      (m : Machine F)
      → state_eq resp.next_state idle ≡ true
      → IsReleased (settle msg ctx resp c m)
  unfolding settle end_session
  settle-IsReleased msg ctx resp c m h = rw h (IsReleased-release_locks _)

  abbrev Same : Machine F → Machine F → Type 0
  Same m m' =
      (m'.state ≡ m.state)
      × (m'.assigned_runway ≡ m.assigned_runway)
      × (m'.session_callsign ≡ m.session_callsign)

  remember_response-Same : (resp : Response) (m : Machine F) → Same m (remember_response resp m)
  unfolding remember_response
  remember_response-Same resp m = ground arith

  -- A spoken response that ends in IDLE ends the session, unless a tower-only field advances at once:
  -- behind the hooks the machine is in IDLE and holds neither a runway nor a callsign, whatever was
  -- held before and whatever the message names.
  pub hooks-end_session :
      (env : Env F) (msg : PilotMessage) (ctx : XplaneContext F) (resp : Response)
      (c : ClearanceComponents) (m : Machine F)
      → is_empty resp.text ≡ false
      → resp.next_state ≡ idle
      → advance_name env ctx (settle msg ctx resp c m) ≡ ""
      → let m' = (apply_post_transition_hooks env msg ctx resp c m).0 in
        (m'.state ≡ idle) × IsReleased m'
  unfolding apply_post_transition_hooks advance_tower_only
  hooks-end_session env msg ctx resp c m spoken ends stays =
      let settled = settle msg ctx resp c m in
      let same = remember_response-Same resp settled in
      let at_idle = settle-state msg ctx resp c m spoken ∙ ends in
      let free = settle-IsReleased msg ctx resp c m (rw ends refl) in
      rw stays (same.0 ∙ at_idle, (same.1 ∙ free.0, same.2 ∙ free.1))

  abbrev pub Disarmed : Machine F → Type 0
  Disarmed m = (m.readback_pending ≡ false) × (m.last_clearance_text ≡ "")

  Disarmed-track_readback :
      (msg : PilotMessage) (resp : Response) (c : ClearanceComponents) (m : Machine F)
      → intent_eq msg.intent readback ≡ true
      → Disarmed (track_readback msg resp c m)
  unfolding track_readback
  Disarmed-track_readback msg resp c m h = rw h (refl, refl)

  Disarmed-drop_stale_readback :
      (resp : Response) (m : Machine F) → Disarmed m → Disarmed (drop_stale_readback resp m)
  unfolding drop_stale_readback
  Disarmed-drop_stale_readback resp m h = ground arith

  Disarmed-lock_runway :
      (msg : PilotMessage) (ctx : XplaneContext F) (resp : Response) (m : Machine F)
      → Disarmed m
      → Disarmed (lock_runway msg ctx resp m)
  unfolding lock_runway
  Disarmed-lock_runway msg ctx resp m h = ground arith

  Disarmed-lock_callsign :
      (msg : PilotMessage) (resp : Response) (m : Machine F)
      → Disarmed m
      → Disarmed (lock_callsign msg resp m)
  unfolding lock_callsign
  Disarmed-lock_callsign msg resp m h = ground arith

  Disarmed-transition_to :
      (next : AtcState) (reason : String) (m : Machine F)
      → Disarmed m
      → Disarmed (transition_to next reason m)
  Disarmed-transition_to next reason m h =
      let kept = Kept-transition_to next reason m in (kept.2 ∙ h.0, kept.3 ∙ h.1)

  Disarmed-track_departure :
      (prev : AtcState) (msg : PilotMessage) (resp : Response) (m : Machine F)
      → Disarmed m
      → Disarmed (track_departure prev msg resp m)
  unfolding track_departure
  Disarmed-track_departure prev msg resp m h = ground arith

  Disarmed-apply_transition :
      (msg : PilotMessage) (resp : Response) (m : Machine F)
      → Disarmed m
      → Disarmed (apply_transition msg resp m)
  unfolding apply_transition
  Disarmed-apply_transition msg resp m h = elim (Bool-cases (is_empty resp.text)) [
    | inl e ↦ rw e h
    | inr e ↦ rw e (Disarmed-track_departure m.state msg resp _ (Disarmed-transition_to _ _ m h))
  ]

  Disarmed-end_session :
      (resp : Response) (m : Machine F) → Disarmed m → Disarmed (end_session resp m)
  unfolding end_session release_locks release_runway release_callsign
  Disarmed-end_session resp m h = ground arith

  Disarmed-advance_tower_only :
      (next : String) (m : Machine F) → Disarmed m → Disarmed (advance_tower_only next m)
  unfolding advance_tower_only
  Disarmed-advance_tower_only next m h = elim (Bool-cases (is_empty next)) [
    | inl e ↦ rw e h
    | inr e ↦ rw e (Disarmed-transition_to _ _ m h)
  ]

  Disarmed-remember_response :
      (resp : Response) (m : Machine F) → Disarmed m → Disarmed (remember_response resp m)
  unfolding remember_response
  Disarmed-remember_response resp m h = ground arith

  pub hooks-Disarmed :
      (env : Env F) (msg : PilotMessage) (ctx : XplaneContext F) (resp : Response)
      (c : ClearanceComponents) (m : Machine F)
      → intent_eq msg.intent readback ≡ true
      → Disarmed (apply_post_transition_hooks env msg ctx resp c m).0
  unfolding apply_post_transition_hooks settle
  hooks-Disarmed env msg ctx resp c m h = Disarmed-remember_response resp _ (
      Disarmed-advance_tower_only _ _ (
        Disarmed-end_session resp _ (
          Disarmed-apply_transition msg resp _ (
            Disarmed-lock_callsign msg resp _ (
              Disarmed-lock_runway msg ctx resp _
                (Disarmed-drop_stale_readback resp _ (Disarmed-track_readback msg resp c m h)))))))
