-- ===== src/Process/Airborne.antt =====
-- The airborne flag through a transmission: a discipline.
use xp_wellys_devfr_atc.Base.{
  ◌≡◌, ◌⊎◌, inl, inr, refl, ap, ◌∙◌, Bool, true, false, ◌&&◌, String, Bool-cases, arith,
}
use xp_wellys_devfr_atc.Double.{Double}
use xp_wellys_devfr_atc.State.{AtcState}
use xp_wellys_devfr_atc.Intent.{
  PilotIntent, PilotMessage, request_taxi, initial_call_ground, initial_call_tower, initial_call,
}
use xp_wellys_devfr_atc.Context.{XplaneContext}
use xp_wellys_devfr_atc.Machine.{Machine, transition_to, set_was_airborne}
use xp_wellys_devfr_atc.Machine.Discipline.{Discipline}
use xp_wellys_devfr_atc.World.{World}
use xp_wellys_devfr_atc.Env.{Env}
use xp_wellys_devfr_atc.Flows.Corrections.{tower_only_initial_collapse}
use xp_wellys_devfr_atc.Process.{starts_departure, promote, reset_airborne, process}
use xp_wellys_devfr_atc.Process.Stages.{LandsBy, follows-process_by}

-- A call that may begin a departure.
abbrev pub IsDeparture : PilotIntent → Type 0
IsDeparture intent =
    (intent ≡ request_taxi)
    ⊎ (intent ≡ initial_call_ground)
    ⊎ (intent ≡ initial_call_tower)
    ⊎ (intent ≡ initial_call)

starts_departure-IsDeparture :
    (msg : PilotMessage) → starts_departure msg ≡ true → IsDeparture msg.intent
starts_departure-IsDeparture msg h = ground arith

module _ {F : Type 0} where
  flag-transition_to :
      (next : AtcState) (reason : String) (m : Machine F)
      → (transition_to next reason m).was_airborne ≡ m.was_airborne
  unfolding transition_to
  flag-transition_to next reason m = ground arith

  -- The flag stays as it is, or is cleared by a departure call on the ground.
  abbrev pub IsFlagKept : XplaneContext F → PilotIntent → Bool → Bool → Type 0
  IsFlagKept ctx intent before now =
      (now ≡ before) ⊎ (now ≡ false) × (ctx.on_ground ≡ true) × IsDeparture intent

  join-IsFlagKept :
      (ctx : XplaneContext F) (intent : PilotIntent) (a b c : Bool)
      → IsFlagKept ctx intent a b
      → IsFlagKept ctx intent b c
      → IsFlagKept ctx intent a c
  join-IsFlagKept ctx intent a b c (inl p) (inl q) = inl (q ∙ p)
  join-IsFlagKept ctx intent a b c (inr (p, grounded, departs)) (inl q) =
      inr (q ∙ p, grounded, departs)
  join-IsFlagKept ctx intent a b c p (inr q) = inr q

  unfoldable flag_kept : XplaneContext F → PilotIntent → Discipline F
  unfolding flag-transition_to
  flag_kept ctx intent = record {
    R = λ n m m'. IsFlagKept ctx intent m.was_airborne m'.was_airborne;
    join = λ p q. join-IsFlagKept ctx intent _ _ _ p q;
    loosen = λ b le p. p;
    move = λ next reason m. inl (flag-transition_to next reason m);
    write = λ m m' w. inl w.3;
    beat = λ m m' _ e. inl (ap (λ s. s.was_airborne) e);
  }

  set_was_airborne_lem : (m : Machine F) → (set_was_airborne false m).was_airborne ≡ false
  unfolding set_was_airborne
  set_was_airborne_lem m = ground arith

  Lands-flag_kept :
      (ctx : XplaneContext F) (intent : PilotIntent) (msg : PilotMessage)
      → (starts_departure msg ≡ true → IsDeparture intent)
      → LandsBy (flag_kept ctx intent) ctx msg
  unfolding flag_kept reset_airborne
  Lands-flag_kept ctx intent msg h m = elim (Bool-cases (ctx.on_ground && starts_departure msg)) [
    | inl e ↦
        let departs : starts_departure msg ≡ true = ground arith in
        let grounded : ctx.on_ground ≡ true = ground arith in
        rw e (inr (set_was_airborne_lem m, grounded, h departs))
    | inr e ↦ rw e (inl refl)
  ]

  -- Neither the promotion nor the collapse makes a departure call.
  departs_behind :
      (env : Env F) (ctx : XplaneContext F) (msg : PilotMessage) (m m' : Machine F)
      → starts_departure (tower_only_initial_collapse env ctx (promote msg m) m') ≡ true
      → starts_departure msg ≡ true
  unfolding tower_only_initial_collapse promote
  departs_behind env ctx msg m m' h = ground arith

module _ {F : Type 0} ⦃d : Double F⦄ where
  -- A transmission leaves the airborne flag as it is, whatever the pilot says and whichever guard
  -- replies, unless it clears it; and it clears it only on the ground, on a request to taxi or on a
  -- first call to ground, to tower or to an unnamed station.
  pub was_airborne-process :
      (env : Env F) (msg : PilotMessage) (ctx : XplaneContext F) (now_secs : F) (w : World F)
      → IsFlagKept ctx msg.intent w.machine.was_airborne
          (process env msg ctx now_secs w).0.machine.was_airborne
  unfolding flag_kept
  was_airborne-process env msg ctx now_secs w =
      follows-process_by (flag_kept ctx msg.intent) env msg ctx now_secs w (λ m.
        Lands-flag_kept ctx msg.intent _
          (λ h. starts_departure-IsDeparture msg (departs_behind env ctx msg _ m h)))
