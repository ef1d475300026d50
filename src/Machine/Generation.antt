-- ===== src/Machine/Generation.antt =====
-- The generation counter as a discipline: a stage with at most `n` bumps moves the counter by at
-- most `n`, and changes no field but the heartbeats without a bump.
use xp_wellys_devfr_atc.Base.{ℕ, ◌+◌, ◌%◌, ◌≤◌, ◌≡◌, ◌⊎◌, inl, inr, refl, ◌∙◌, Bool, String, arith}
use xp_wellys_devfr_atc.State.{AtcState}
use xp_wellys_devfr_atc.Machine.{Machine, u64_mod, bump_gen, transition_to, set_was_airborne}
use xp_wellys_devfr_atc.Machine.Discipline.{semantics, Discipline, SessionRules}

module _ {F : Type 0} where
  -- At most `n` bumps lead from `m` to `m'`; with none, no semantic field has changed.
  pub record Evolves (n : ℕ) (m m' : Machine F) : Type 0 where
    pub bumps : ℕ
    pub bounded : bumps ≤ n
    pub moved : m'.gen % u64_mod ≡ (m.gen + bumps) % u64_mod
    pub quiet : bumps ≡ 0 → semantics m' ≡ semantics m

  pub Evolves-join :
      {a b : ℕ} {x y z : Machine F} → Evolves a x y → Evolves b y z → Evolves (a + b) x z
  Evolves-join {x} {y} {z} p q = record {
    bumps = p.bumps + q.bumps;
    bounded = omega arith;
    moved = omega (arith, p.moved, q.moved);
    quiet = λ e. q.quiet (omega arith) ∙ p.quiet (omega arith);
  }

  pub Evolves-loosen : {a : ℕ} (b : ℕ) {x y : Machine F} → a ≤ b → Evolves a x y → Evolves b x y
  Evolves-loosen b h p = record {
    bumps = p.bumps;
    bounded = omega arith;
    moved = p.moved;
    quiet = p.quiet;
  }

  pub Evolves-beat :
      (m m' : Machine F) → m'.gen ≡ m.gen → semantics m' ≡ semantics m → Evolves 0 m m'
  Evolves-beat m m' e same = record {
    bumps = 0;
    bounded = omega arith;
    moved = omega arith;
    quiet = λ _. same;
  }

  -- One bump covers any change of the other fields.
  pub Evolves-bump : (m m' : Machine F) → m'.gen ≡ (bump_gen m).gen → Evolves 1 m m'
  unfolding bump_gen
  Evolves-bump m m' e = record {
    bumps = 1;
    bounded = omega arith;
    moved = omega arith;
    quiet = λ h. absurd (omega arith);
  }

  pub Evolves-once : (m m' : Machine F) → (m' ≡ m) ⊎ (m'.gen ≡ (bump_gen m).gen) → Evolves 1 m m'
  Evolves-once m m' (inl e) = rw e (Evolves-loosen 1 (omega arith) (Evolves-beat m m refl refl))
  Evolves-once m m' (inr e) = Evolves-bump m m' e

  pub Evolves-transition_to :
      (next : AtcState) (reason : String) (m : Machine F)
      → Evolves 1 m (transition_to next reason m)
  unfolding transition_to
  Evolves-transition_to next reason m = Evolves-once m _ (ground arith)

  pub Evolves-set_was_airborne : (v : Bool) (m : Machine F) → Evolves 1 m (set_was_airborne v m)
  unfolding set_was_airborne
  Evolves-set_was_airborne v m = Evolves-once m _ (ground arith)

  unfoldable pub generations : Discipline F
  generations = record {
    R = Evolves;
    join = Evolves-join;
    loosen = Evolves-loosen;
    move = Evolves-transition_to;
    write = λ m m' w. Evolves-bump m m' w.0;
    beat = Evolves-beat;
  }

  pub generations-SessionRules : SessionRules generations
  unfolding generations
  generations-SessionRules = record {
    restart = λ m m' e _. Evolves-bump m m' e;
    fly = Evolves-set_was_airborne;
  }
