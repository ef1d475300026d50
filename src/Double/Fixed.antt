-- ===== src/Double/Fixed.antt =====
-- Decimal numbers with a sign, in units of 10 ^ -12: an instance on which the model runs.
use xp_wellys_devfr_atc.Base.{
  ℕ, zero, suc, ◌+◌, ◌-◌, ◌*◌, ◌/◌, ◌%◌, ◌^◌, ◌≡◌, Bool, true, false, not, ◌&&◌, ltb, leb,
  if◌then◌else◌, arith,
}
use xp_wellys_devfr_atc.Double.{Double, IsOrdered}

pub data Fixed : Type 0 where
  plus minus : ℕ → Fixed

abbrev unit : ℕ
unit = 1_000_000_000_000

abbrev magnitude : Fixed → ℕ
magnitude (plus n) = n
magnitude (minus n) = n

abbrev negate : Fixed → Fixed
negate (plus n) = minus n
negate (minus n) = plus n

abbrev diff : ℕ → ℕ → Fixed
diff a b = if leb b a then plus (a - b) else minus (b - a)

abbrev plus_fixed : Fixed → Fixed → Fixed
plus_fixed (plus a) (plus b) = plus (a + b)
plus_fixed (plus a) (minus b) = diff a b
plus_fixed (minus a) (plus b) = diff b a
plus_fixed (minus a) (minus b) = minus (a + b)

abbrev with_sign : Fixed → Fixed → ℕ → Fixed
with_sign (plus _) (plus _) n = plus n
with_sign (plus _) (minus _) n = minus n
with_sign (minus _) (plus _) n = minus n
with_sign (minus _) (minus _) n = plus n

abbrev times : Fixed → Fixed → Fixed
times x y = with_sign x y (magnitude x * magnitude y / unit)

abbrev over : Fixed → Fixed → Fixed
over x y = with_sign x y (magnitude x * unit / magnitude y)

abbrev lt_fixed : Fixed → Fixed → Bool
lt_fixed (plus a) (plus b) = ltb a b
lt_fixed (plus a) (minus b) = false
lt_fixed (minus a) (plus b) = ltb 0 (a + b)
lt_fixed (minus a) (minus b) = ltb b a

abbrev le_fixed : Fixed → Fixed → Bool
le_fixed x y = not (lt_fixed y x)

-- Newton's iteration for the square root of a natural number.
unfoldable pub newton : ℕ → ℕ → ℕ → ℕ
newton zero n x = x
newton (suc k) n x = newton k n ((x + n / x) / 2)

-- The first terms of the series serve: no law of these functions is used.
abbrev cosine : Fixed → Fixed
cosine x = plus_fixed (plus unit) (negate (over (times x x) (plus (2 * unit))))

instance abbrev pub fixed_double : Double Fixed
fixed_double = record {
  lit = λ m k. plus (m * unit / 10 ^ k);
  neg = negate;
  add = plus_fixed;
  sub = λ x y. plus_fixed x (negate y);
  mul = times;
  div = over;
  fmod = λ x y. with_sign x (plus 1) (magnitude x % magnitude y);
  fabs = λ x. plus (magnitude x);
  round = λ x. with_sign x (plus 1) ((magnitude x + unit / 2) / unit * unit);
  sqrt = λ x. plus (newton 60 (magnitude x * unit) (magnitude x + unit));
  sin = λ x. x;
  cos = cosine;
  atan2 = over;
  asin = λ x. x;
  lt = lt_fixed;
  le = le_fixed;
  eq = λ x y. le_fixed x y && le_fixed y x;
  print_fixed = λ n x. "";
  print_padded = λ n x. "";
  print_int = λ x. "";
  to_nat = λ x. magnitude x / unit;
}

pub Fixed-IsOrdered : IsOrdered Fixed
Fixed-IsOrdered = record {
  lt_irrefl = λ x. irrefl x;
  lt_trans = trans;
  le_trans = le_trans_fixed;
  le-eq-not-lt = λ x y. refl_not x y;
  eq-eq-le = λ x y. refl_eq x y;
}
  where
    irrefl : (x : Fixed) → lt_fixed x x ≡ false
    irrefl x = ground arith

    trans : (x y z : Fixed) → lt_fixed x y ≡ true → lt_fixed y z ≡ true → lt_fixed x z ≡ true
    trans x y z p q = ground arith

    le_trans_fixed :
        (x y z : Fixed) → le_fixed x y ≡ true → le_fixed y z ≡ true → le_fixed x z ≡ true
    le_trans_fixed x y z p q = ground arith

    refl_not : (x y : Fixed) → le_fixed x y ≡ not (lt_fixed y x)
    refl_not x y = ground arith

    refl_eq : (x y : Fixed) → (le_fixed x y && le_fixed y x) ≡ (le_fixed x y && le_fixed y x)
    refl_eq x y = ground arith
