-- ===== src/Response/Rules.antt =====
-- Rules for the pipeline: what holds of each stage holds of the whole.
use xp_wellys_devfr_atc.Base.{ℕ, ◌+◌, arith}
use xp_wellys_devfr_atc.Machine.{Machine}
use xp_wellys_devfr_atc.Machine.Discipline.{Discipline, skip}
use xp_wellys_devfr_atc.Response.{Outcome, reply, proceed, Flow, ◌>>=◌, ◌>>◌, modify, read}

module _ {F : Type 0} (D : Discipline F) where
  -- A stage bumps the counter at most D `n` times, and changes nothing semantic without a bump.
  pub record FlowFollows {A : Type 0} (n : ℕ) (f : Flow F A) : Type 0 where
    pub at : (m : Machine F) → D.R n m (f m).0

  bind_outcome :
      {A B : Type 0} {a b : ℕ} (m m' : Machine F) (o : Outcome A) (g : A → Flow F B)
      → D.R a m m'
      → ((x : A) → FlowFollows b (g x))
      → D.R
          (a + b)
          m
          (let r : Machine F × Outcome B = elim o [
            | reply r ↦ (m', reply r)
            | proceed x ↦ g x m'
          ] in
            r).0
  bind_outcome {a} {b} m m' (reply r) g p q = D.loosen (a + b) (omega arith) p
  bind_outcome m m' (proceed x) g p q = D.join p ((q x).at m')

  pub bind_follows :
      {A B : Type 0} {a b : ℕ} {f : Flow F A} {g : A → Flow F B}
      → FlowFollows a f
      → ((x : A) → FlowFollows b (g x))
      → FlowFollows (a + b) (f >>= g)
  bind_follows {f} {g} p q = record { at = λ m. bind_outcome m (f m).0 (f m).1 g (p.at m) q }

  pub then_follows :
      {B : Type 0} {a b : ℕ} {f : Flow F (Unit {0})} {g : Flow F B}
      → FlowFollows a f
      → FlowFollows b g
      → FlowFollows (a + b) (f >> g)
  then_follows p q = bind_follows p (λ _. q)

  pub read_follows : {A : Type 0} (f : Machine F → A) → FlowFollows 0 (read f)
  read_follows f = record { at = λ m. skip D 0 m }

  -- What goes on with a value that was read need only follow for such a value.
  pub read_then_follows :
      {A B : Type 0} {b : ℕ} (f : Machine F → A) (g : A → Flow F B)
      → ((m : Machine F) → FlowFollows b (g (f m)))
      → FlowFollows b (read f >>= g)
  read_then_follows f g q = record { at = λ m. (q m).at m }

  pub modify_follows :
      {n : ℕ} (f : Machine F → Machine F)
      → ((m : Machine F) → D.R n m (f m))
      → FlowFollows n (modify f)
  modify_follows f p = record { at = p }
