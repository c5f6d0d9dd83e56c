-- ===== src/Float/Fixed.antt =====
-- Fixed-point numbers in thousandths as a model of the float interfaces: what the examples compute
-- with, and evidence that the laws of `Float` can hold together. The transcendental functions are
-- not approximated: the examples do not reach them.
use fusecraft_rs.Base.{
  ℕ, zero, suc, ◌+◌, ◌-◌, ◌*◌, ◌/◌, ◌%◌, ◌^◌, ◌<◌, ◌≡◌, refl, ap, Bool, true, false, not, ltb, leb,
  if◌then◌else◌, Option, none, some, min, arith, Bool-cases, inl, inr, le→leb, lt→ltb,
}
use fusecraft_rs.Base.Word.{u64_max, duration_max}
use fusecraft_rs.Float.{Float, Rng, IsOrdered, IsUniform, IsConversion, IsBucketOrder}

-- `plus n` is n thousandths, `minus n` is -(n + 1) thousandths.
pub data Fixed : Type 0 where
  plus : ℕ → Fixed
  minus : ℕ → Fixed

-- The difference of two naturals.
unfoldable difference : ℕ → ℕ → Fixed
difference a b = if ltb a b then minus (b - a - 1) else plus (a - b)

unfoldable leq : Fixed → Fixed → Bool
leq (plus a) (plus b) = leb a b
leq (plus a) (minus b) = false
leq (minus a) (plus b) = true
leq (minus a) (minus b) = leb b a

unfoldable negate : Fixed → Fixed
negate (plus zero) = plus 0
negate (plus (suc n)) = minus n
negate (minus n) = plus (suc n)

unfoldable sum : Fixed → Fixed → Fixed
unfolding difference
sum (plus a) (plus b) = plus (a + b)
sum (plus a) (minus b) = difference a (suc b)
sum (minus a) (plus b) = difference b (suc a)
sum (minus a) (minus b) = minus (a + b + 1)

unfoldable magnitude : Fixed → ℕ
magnitude (plus n) = n
magnitude (minus n) = suc n

-- The product and the quotient of the sizes; the examples use them on numbers that are not negative.
unfoldable product : Fixed → Fixed → Fixed
unfolding magnitude
product a b = plus (magnitude a * magnitude b / 1000)

unfoldable quotient : Fixed → Fixed → Fixed
unfolding magnitude
quotient a b = plus (magnitude a * 1000 / magnitude b)

unfoldable least : Fixed → Fixed → Fixed
unfolding leq
least a b = if leq a b then a else b

unfoldable greatest : Fixed → Fixed → Fixed
unfolding leq
greatest a b = if leq a b then b else a

unfoldable rounded : Fixed → Fixed
rounded (plus n) = plus ((n + 500) / 1000 * 1000)
rounded (minus n) = plus 0

unfoldable whole : Fixed → ℕ
whole (plus n) = min (n / 1000) u64_max
whole (minus n) = 0

unfoldable seconds : Fixed → Option ℕ
seconds (plus n) = if ltb duration_max (n * 1000000) then none else some (n * 1000000)
seconds (minus n) = none

instance unfoldable pub fixed : Float Fixed
unfolding difference leq negate sum product quotient least greatest rounded whole seconds
fixed = record {
  zero = plus 0;
  one = plus 1000;
  lit = λ m k. plus (m * 1000 / 10 ^ k);
  pi = plus 3142;
  min_positive = plus 1;
  lt = λ a b. not (leq b a);
  le = leq;
  is_finite = λ a. true;
  add = sum;
  sub = λ a b. sum a (negate b);
  mul = product;
  div = quotient;
  powf = λ a b. a;
  fmin = least;
  fmax = greatest;
  neg = negate;
  ln = λ a. a;
  exp = λ a. a;
  sqrt = λ a. a;
  cos = λ a. a;
  round = rounded;
  of_u64 = λ n. plus (n * 1000);
  as_u64 = whole;
  as_secs_f64 = λ ns. plus (ns / 1000000);
  try_from_secs_f64 = seconds;
}

instance unfoldable pub fixed_rng : Rng Fixed
fixed_rng = record { draw = λ s i. plus ((s + i * 619) % 1000) }

pub fixed-IsOrdered : IsOrdered fixed
unfolding fixed
fixed-IsOrdered = record { zero_finite = refl; one_finite = refl; total = λ a b p q. refl }

draw_below : (n : ℕ) → not (leb 1000 (n % 1000)) ≡ true
draw_below n = ground arith

pub fixed-IsUniform : IsUniform fixed fixed_rng
unfolding fixed fixed_rng leq
fixed-IsUniform = record {
  draw_finite = λ s i. refl;
  draw_nonneg = λ s i. ground arith;
  draw_below_one = λ s i. draw_below (s + i * 619);
}

pub fixed-IsConversion : IsConversion fixed
unfolding fixed leq sum least greatest rounded whole
fixed-IsConversion = record {
  add-of_u64 = λ a b h. ap plus (omega arith);
  fmin-of_u64 = λ a b. ground arith;
  fmax_zero = λ n. ground arith;
  round-of_u64 = λ n. ap plus (omega arith);
  as_u64-of_u64 = λ n h. omega arith;
}

least-le : (a b : Fixed) → leq b b ≡ true → leq (least a b) b ≡ true
unfolding least leq
least-le a b h = ground arith

-- Subtracting a number that is not negative.
sub_below : (x c : Fixed) (m : ℕ) → leq x c ≡ true → leq (sum x (negate (plus m))) c ≡ true
unfolding sum negate leq difference
sub_below (plus a) (plus b) zero h = ground arith
sub_below (plus a) (plus b) (suc m) h = elim (Bool-cases (ltb a (suc m))) [
  | inl low ↦ rw low refl
  | inr high ↦ rw high (le→leb (a - suc m) b (ground arith))
]
sub_below (plus a) (minus b) m h = cc h
sub_below (minus a) (plus b) zero h = ground arith
sub_below (minus a) (plus b) (suc m) h = refl
sub_below (minus a) (minus b) zero h = ground arith
sub_below (minus a) (minus b) (suc m) h = ground arith

sub_positive :
    (x : Fixed) (m : ℕ)
    → leq x (plus 0) ≡ true
    → 0 < m
    → leq (plus 0) (sum x (negate (plus m))) ≡ false
unfolding sum negate leq difference
sub_positive x zero h pos = absurd (omega arith)
sub_positive (plus a) (suc m) h pos = rw (lt→ltb a (suc m) (ground arith)) refl
sub_positive (minus a) (suc m) h pos = refl

pub fixed-IsBucketOrder : IsBucketOrder fixed
unfolding fixed leq least
fixed-IsBucketOrder = record {
  of_u64-zero = refl;
  le-of_u64_refl = λ n. ground arith;
  fmin-le = least-le;
  sub-le = λ x c n. sub_below x c (n * 1000);
  sub_negative = λ x n h pos. sub_positive x (n * 1000) h (omega arith);
}
