-- ===== src/Double.antt =====
-- What the source does with `double` and `float`: arithmetic, comparisons and the functions of
-- <cmath> and <cstdio> that it calls. The type is a parameter; the two widths are one type.
pub mod Fixed
use xp_wellys_devfr_atc.Base.{ℕ, ◌≡◌, Bool, true, false, not, ◌&&◌, String}

pub record Double (F : Type 0) : Type 0 where
  -- The literal `m / 10 ^ k`.
  pub lit : ℕ → ℕ → F
  pub neg : F → F
  pub add : F → F → F
  pub sub : F → F → F
  pub mul : F → F → F
  pub div : F → F → F
  pub fmod : F → F → F
  pub fabs : F → F
  pub round : F → F
  pub sqrt : F → F
  pub sin : F → F
  pub cos : F → F
  pub atan2 : F → F → F
  pub asin : F → F
  pub lt : F → F → Bool
  pub le : F → F → Bool
  pub eq : F → F → Bool
  -- `snprintf` with `%.<n>f`, and with `%0<w>.0f`.
  pub print_fixed : ℕ → F → String
  pub print_padded : ℕ → F → String
  -- `snprintf` with `%d` of `static_cast<int>`.
  pub print_int : F → String
  -- `static_cast<int>` of a rounded value that is at least 0.
  pub to_nat : F → ℕ

module _ {F : Type 0} ⦃d : Double F⦄ where
  infix 50 ◌<?◌ ◌≤?◌
  abbrev pub ◌<?◌ : F → F → Bool
  x <? y = d.lt x y

  abbrev pub ◌≤?◌ : F → F → Bool
  x ≤? y = d.le x y

  abbrev pub add : F → F → F
  add x y = d.add x y

  abbrev pub sub : F → F → F
  sub x y = d.sub x y

  abbrev pub mul : F → F → F
  mul x y = d.mul x y

  abbrev pub div : F → F → F
  div x y = d.div x y

  abbrev pub lit : ℕ → ℕ → F
  lit m k = d.lit m k

  -- The integral literal `n.0`.
  abbrev pub whole : ℕ → F
  whole n = d.lit n 0

-- The order of doubles that are not NaN.
pub record IsOrdered (F : Type 0) ⦃d : Double F⦄ : Type 0 where
  pub lt_irrefl : (x : F) → d.lt x x ≡ false
  pub lt_trans : (x y z : F) → d.lt x y ≡ true → d.lt y z ≡ true → d.lt x z ≡ true
  pub le_trans : (x y z : F) → d.le x y ≡ true → d.le y z ≡ true → d.le x z ≡ true
  pub le-eq-not-lt : (x y : F) → d.le x y ≡ not (d.lt y x)
  pub eq-eq-le : (x y : F) → d.eq x y ≡ (d.le x y && d.le y x)
