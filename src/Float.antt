-- ===== src/Float.antt =====
-- The `f64` operations that the code calls, as an interface: a carrier `F` with the arithmetic of
-- the standard library, and the laws of IEEE 754 that single theorems name as hypotheses.
-- `draw s i` is the i-th `random::<f64>()` of `StdRng::seed_from_u64(s)` of the rand crate.
pub mod Fixed
use fusecraft_rs.Base.{ℕ, ◌+◌, ◌≤◌, ◌<◌, ◌^◌, ◌≡◌, Bool, true, false, not, Option, min, max}

pub record Float (F : Type 0) : Type 0 where
  -- `lit m k` is the literal m * 10^-k; `zero` and `one` are 0.0 and 1.0
  pub zero : F
  pub one : F
  pub lit : ℕ → ℕ → F
  pub pi : F
  pub min_positive : F
  pub lt : F → F → Bool
  pub le : F → F → Bool
  pub is_finite : F → Bool
  pub add : F → F → F
  pub sub : F → F → F
  pub mul : F → F → F
  pub div : F → F → F
  pub powf : F → F → F
  pub fmin : F → F → F
  pub fmax : F → F → F
  pub neg : F → F
  pub ln : F → F
  pub exp : F → F
  pub sqrt : F → F
  pub cos : F → F
  pub round : F → F
  -- `n as f64` and the saturating `x as u64`
  pub of_u64 : ℕ → F
  pub as_u64 : F → ℕ
  -- `Duration::as_secs_f64`, and `Duration::try_from_secs_f64`, over nanoseconds
  pub as_secs_f64 : ℕ → F
  pub try_from_secs_f64 : F → Option ℕ

pub record Rng (F : Type 0) : Type 0 where
  pub draw : ℕ → ℕ → F

-- Comparisons of finite numbers are total, and 0.0 and 1.0 are finite.
pub record IsOrdered {F : Type 0} (fl : Float F) : Type 0 where
  pub zero_finite : fl.is_finite fl.zero ≡ true
  pub one_finite : fl.is_finite fl.one ≡ true
  pub total :
      (a b : F) → fl.is_finite a ≡ true → fl.is_finite b ≡ true → fl.lt a b ≡ not (fl.le b a)

-- A draw is a finite number in [0, 1).
pub record IsUniform {F : Type 0} (fl : Float F) (rng : Rng F) : Type 0 where
  pub draw_finite : (s i : ℕ) → fl.is_finite (rng.draw s i) ≡ true
  pub draw_nonneg : (s i : ℕ) → fl.le fl.zero (rng.draw s i) ≡ true
  pub draw_below_one : (s i : ℕ) → fl.lt (rng.draw s i) fl.one ≡ true

-- The conversion from `u64` is monotone and gives whole numbers, exactly up to 2^53.
pub record IsConversion {F : Type 0} (fl : Float F) : Type 0 where
  pub add-of_u64 :
      (a b : ℕ) → a + b ≤ 2 ^ 53 → fl.add (fl.of_u64 a) (fl.of_u64 b) ≡ fl.of_u64 (a + b)
  pub fmin-of_u64 : (a b : ℕ) → fl.fmin (fl.of_u64 a) (fl.of_u64 b) ≡ fl.of_u64 (min a b)
  pub fmax_zero : (n : ℕ) → fl.fmax (fl.of_u64 n) fl.zero ≡ fl.of_u64 n
  pub round-of_u64 : (n : ℕ) → fl.round (fl.of_u64 n) ≡ fl.of_u64 n
  pub as_u64-of_u64 : (n : ℕ) → n ≤ 2 ^ 53 → fl.as_u64 (fl.of_u64 n) ≡ n

-- Smaller tokens: a minimum does not exceed its second operand, and subtracting a byte count from a
-- number does not raise it, and takes a number that is at most 0.0 below 0.0.
pub record IsBucketOrder {F : Type 0} (fl : Float F) : Type 0 where
  pub of_u64-zero : fl.of_u64 0 ≡ fl.zero
  pub le-of_u64_refl : (n : ℕ) → fl.le (fl.of_u64 n) (fl.of_u64 n) ≡ true
  pub fmin-le : (a b : F) → fl.le b b ≡ true → fl.le (fl.fmin a b) b ≡ true
  pub sub-le : (x c : F) (n : ℕ) → fl.le x c ≡ true → fl.le (fl.sub x (fl.of_u64 n)) c ≡ true
  pub sub_negative :
      (x : F) (n : ℕ)
      → fl.le x fl.zero ≡ true
      → 0 < n
      → fl.le fl.zero (fl.sub x (fl.of_u64 n)) ≡ false
