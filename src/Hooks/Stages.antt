-- ===== src/Hooks/Stages.antt =====
-- The counter through the hooks.
use xp_wellys_devfr_atc.Base.{inl, inr, String, is_empty, Bool-cases, arith}
use xp_wellys_devfr_atc.State.{AtcState, idle, state_eq}
use xp_wellys_devfr_atc.Intent.{PilotMessage}
use xp_wellys_devfr_atc.Context.{XplaneContext}
use xp_wellys_devfr_atc.Readback.{ClearanceComponents}
use xp_wellys_devfr_atc.Machine.{Machine}
use xp_wellys_devfr_atc.Machine.Discipline.{Discipline, skip, once}
use xp_wellys_devfr_atc.World.{release_runway, release_callsign, release_locks}
use xp_wellys_devfr_atc.Env.{Env}
use xp_wellys_devfr_atc.Response.{Response}
use xp_wellys_devfr_atc.Hooks.{
  track_readback, drop_stale_readback, lock_runway, lock_callsign, track_departure,
  apply_transition, end_session, advance_tower_only, remember_response, settle,
  apply_post_transition_hooks,
}

module _ {F : Type 0} (D : Discipline F) where
  follows-release_runway : (m : Machine F) → D.R 1 m (release_runway m)
  unfolding release_runway
  follows-release_runway m = once D m _ (ground arith)

  follows-release_callsign : (m : Machine F) → D.R 1 m (release_callsign m)
  unfolding release_callsign
  follows-release_callsign m = once D m _ (ground arith)

  pub follows-release_locks : (m : Machine F) → D.R 2 m (release_locks m)
  unfolding release_locks
  follows-release_locks m =
      D.join {a = 1} {b = 1} (follows-release_runway m) (follows-release_callsign _)

  follows-track_readback :
      (msg : PilotMessage) (resp : Response) (c : ClearanceComponents) (m : Machine F)
      → D.R 1 m (track_readback msg resp c m)
  unfolding track_readback
  follows-track_readback msg resp c m = once D m _ (ground arith)

  follows-drop_stale_readback :
      (resp : Response) (m : Machine F) → D.R 1 m (drop_stale_readback resp m)
  unfolding drop_stale_readback
  follows-drop_stale_readback resp m = once D m _ (ground arith)

  follows-lock_runway :
      (msg : PilotMessage) (ctx : XplaneContext F) (resp : Response) (m : Machine F)
      → D.R 1 m (lock_runway msg ctx resp m)
  unfolding lock_runway
  follows-lock_runway msg ctx resp m = once D m _ (ground arith)

  follows-lock_callsign :
      (msg : PilotMessage) (resp : Response) (m : Machine F) → D.R 1 m (lock_callsign msg resp m)
  unfolding lock_callsign
  follows-lock_callsign msg resp m = once D m _ (ground arith)

  follows-track_departure :
      (prev : AtcState) (msg : PilotMessage) (resp : Response) (m : Machine F)
      → D.R 1 m (track_departure prev msg resp m)
  unfolding track_departure
  follows-track_departure prev msg resp m = once D m _ (ground arith)

  follows-apply_transition :
      (msg : PilotMessage) (resp : Response) (m : Machine F) → D.R 2 m (apply_transition msg resp m)
  unfolding apply_transition
  follows-apply_transition msg resp m = elim (Bool-cases (is_empty resp.text)) [
    | inl e ↦ rw e (skip D 2 m)
    | inr e ↦
        rw e (D.join {a = 1} {b = 1} (D.move _ _ m) (follows-track_departure m.state msg resp _))
  ]

  follows-end_session : (resp : Response) (m : Machine F) → D.R 2 m (end_session resp m)
  unfolding end_session
  follows-end_session resp m = elim (Bool-cases (state_eq resp.next_state idle)) [
    | inl e ↦ rw e (follows-release_locks m)
    | inr e ↦ rw e (skip D 2 m)
  ]

  follows-advance_tower_only : (next : String) (m : Machine F) → D.R 1 m (advance_tower_only next m)
  unfolding advance_tower_only
  follows-advance_tower_only next m = elim (Bool-cases (is_empty next)) [
    | inl e ↦ rw e (skip D 1 m)
    | inr e ↦ rw e (D.move _ _ m)
  ]

  follows-remember_response : (resp : Response) (m : Machine F) → D.R 1 m (remember_response resp m)
  unfolding remember_response
  follows-remember_response resp m = once D m _ (ground arith)

  follows-settle :
      (msg : PilotMessage) (ctx : XplaneContext F) (resp : Response) (c : ClearanceComponents)
      (m : Machine F)
      → D.R 8 m (settle msg ctx resp c m)
  unfolding settle
  follows-settle msg ctx resp c m = D.join {a = 1} {b = 7} (follows-track_readback msg resp c m) (
      D.join {a = 1} {b = 6} (follows-drop_stale_readback resp _) (
        D.join {a = 1} {b = 5} (follows-lock_runway msg ctx resp _) (
          D.join {a = 1} {b = 4} (follows-lock_callsign msg resp _) (
            D.join {a = 2} {b = 2} (follows-apply_transition msg resp _)
              (follows-end_session resp _)))))

  pub follows-hooks :
      (env : Env F) (msg : PilotMessage) (ctx : XplaneContext F) (resp : Response)
      (c : ClearanceComponents) (m : Machine F)
      → D.R 10 m (apply_post_transition_hooks env msg ctx resp c m).0
  unfolding apply_post_transition_hooks
  follows-hooks env msg ctx resp c m =
      D.join {a = 8} {b = 2} (follows-settle msg ctx resp c m)
        (D.join {a = 1} {b = 1} (follows-advance_tower_only _ _) (follows-remember_response resp _))
