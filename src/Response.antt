-- ===== src/Response.antt =====
-- The tower's response (src/atc/atc_state_machine.hpp, `ATCResponse`), and the pipeline of guards
-- of `process`: a stage changes the machine and either replies or lets the call proceed.
pub mod Rules
use xp_wellys_devfr_atc.Base.{Bool, false, String}
use xp_wellys_devfr_atc.State.{AtcState, idle}
use xp_wellys_devfr_atc.Machine.{Machine}

pub record Response : Type 0 where
  pub text : String
  pub next_state : AtcState
  pub requires_readback : Bool

-- `ATCResponse resp;`
abbrev pub empty_response : Response
empty_response = record { text = ""; next_state = idle; requires_readback = false }

pub data Outcome (A : Type 0) : Type 0 where
  reply : Response → Outcome A
  proceed : A → Outcome A

abbrev pub Flow : Type 0 → Type 0 → Type 0
Flow F A = Machine F → Machine F × Outcome A

module _ {F : Type 0} where
  infixl 5 ◌>>=◌ ◌>>◌
  abbrev pub ◌>>=◌ : {A B : Type 0} → Flow F A → (A → Flow F B) → Flow F B
  ◌>>=◌ f g m =
      let (m', outcome) = f m in elim outcome [ reply r ↦ (m', reply r) | proceed a ↦ g a m' ]

  abbrev pub ◌>>◌ : {B : Type 0} → Flow F (Unit {0}) → Flow F B → Flow F B
  f >> g = f >>= λ _. g

  abbrev pub modify : (Machine F → Machine F) → Flow F (Unit {0})
  modify f m = (f m, proceed tt)

  abbrev pub read : {A : Type 0} → (Machine F → A) → Flow F A
  read f m = (m, proceed (f m))

  abbrev pub pure : {A : Type 0} → A → Flow F A
  pure a m = (m, proceed a)
