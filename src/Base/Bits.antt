-- ===== src/Base/Bits.antt =====
-- Exclusive or on the native numbers: one equation for the lowest digit, and from it cancellation,
-- shifts and bounds, which say that the mixing steps of the Rust code lose nothing.
use Prim.Native.Nat.{
  ℕ, zero, suc, ◌+◌, ◌*◌, ◌/◌, ◌%◌, ◌^◌, ◌≤◌, ◌<◌, bit_xor, digits, differ, bit_xor-bitwise,
}
use mathlib.Core.Path.{◌≡◌, refl, sym, ap, ◌∙◌}
use native.Mathlib.Omega.{arith}
use native.Mathlib.Nat.{pow-suc, div-one, div-div-eq-div-mul, div-le_self}
use fusecraft_rs.Base.Word.{shr}

-- The digits do not depend on the fuel, once there is enough.
abbrev xor_digits : ℕ → ℕ → ℕ → ℕ
xor_digits = digits (λ y. y) differ

xor_digits-zero : (n b : ℕ) → xor_digits n 0 b ≡ b
xor_digits-zero zero b = refl
xor_digits-zero (suc n) b = refl

xor_digits_fuel : (n m a b : ℕ) → a ≤ n → a ≤ m → xor_digits n a b ≡ xor_digits m a b
xor_digits_fuel n m zero b p q = omega (arith, xor_digits-zero n b, xor_digits-zero m b)
xor_digits_fuel zero m (suc a) b p q = absurd (omega arith)
xor_digits_fuel (suc n) zero (suc a) b p q = absurd (omega arith)
xor_digits_fuel (suc n) (suc m) (suc a) b p q =
    omega (arith, xor_digits_fuel n m (suc a / 2) (b / 2) (omega arith) (omega arith))

differ_lem : (x y : ℕ) → x < 2 → y < 2 → differ x y ≡ (x + y) % 2
differ_lem zero y p q = omega arith
differ_lem (suc zero) zero p q = refl
differ_lem (suc zero) (suc zero) p q = refl
differ_lem (suc zero) (suc (suc y)) p q = absurd (omega arith)
differ_lem (suc (suc x)) y p q = absurd (omega arith)

pub zero-bit_xor : (b : ℕ) → bit_xor 0 b ≡ b
zero-bit_xor b = bit_xor-bitwise 0 b

-- The lowest digit is the sum without its carry; the others are those of the halves.
bit_xor_step : (a b : ℕ) → bit_xor a b ≡ bit_xor (a / 2) (b / 2) * 2 + (a + b) % 2
bit_xor_step zero b = omega (arith, zero-bit_xor b, zero-bit_xor (b / 2))
bit_xor_step (suc a) b = omega (
  arith,
  bit_xor-bitwise (suc a) b,
  bit_xor-bitwise (suc a / 2) (b / 2),
  differ_lem (suc a % 2) (b % 2) (omega arith) (omega arith),
  xor_digits_fuel a (suc a / 2) (suc a / 2) (b / 2) (omega arith) (omega arith),
)

cancel_fuel : (n a b c : ℕ) → b ≤ n → c ≤ n → bit_xor a b ≡ bit_xor a c → b ≡ c
cancel_fuel zero a b c p q h = omega arith
cancel_fuel (suc n) a b c p q h =
    let halves : b / 2 ≡ c / 2 =
      cancel_fuel n (a / 2) (b / 2) (c / 2) (omega arith) (omega arith)
        (omega (arith, bit_xor_step a b, bit_xor_step a c)) in
    omega (arith, bit_xor_step a b, bit_xor_step a c)

pub bit_xor_cancel_left : (a b c : ℕ) → bit_xor a b ≡ bit_xor a c → b ≡ c
bit_xor_cancel_left a b c = cancel_fuel (b + c) a b c (omega arith) (omega arith)

comm_fuel : (n a b : ℕ) → a ≤ n → b ≤ n → bit_xor a b ≡ bit_xor b a
comm_fuel zero a b p q = let e : a ≡ b = omega arith in rw e
comm_fuel (suc n) a b p q = omega (
  arith,
  bit_xor_step a b,
  bit_xor_step b a,
  comm_fuel n (a / 2) (b / 2) (omega arith) (omega arith),
)

pub bit_xor_comm : (a b : ℕ) → bit_xor a b ≡ bit_xor b a
bit_xor_comm a b = comm_fuel (a + b) a b (omega arith) (omega arith)

pub bit_xor_cancel_right : (a b c : ℕ) → bit_xor b a ≡ bit_xor c a → b ≡ c
bit_xor_cancel_right a b c h = bit_xor_cancel_left a b c (bit_xor_comm a b ∙ h ∙ bit_xor_comm c a)

pub shr-bit_xor : (k a b : ℕ) → bit_xor a b / 2 ^ k ≡ bit_xor (a / 2 ^ k) (b / 2 ^ k)
shr-bit_xor zero a b = simp div-one
shr-bit_xor (suc k) a b =
    simp (pow-suc, ← div-div-eq-div-mul, shr-bit_xor k a b)
      (omega (arith, bit_xor_step (a / 2 ^ k) (b / 2 ^ k)))

pub bit_xor-lt : (k a b : ℕ) → a < 2 ^ k → b < 2 ^ k → bit_xor a b < 2 ^ k
bit_xor-lt zero a b p q =
    let e : bit_xor a b ≡ bit_xor 0 b = ap (λ t. bit_xor t b) (omega arith) in
    omega (arith, e, zero-bit_xor b)
bit_xor-lt (suc k) a b p q = omega (
  arith,
  pow-suc 2 k,
  bit_xor_step a b,
  bit_xor-lt k (a / 2) (b / 2) (omega (arith, pow-suc 2 k)) (omega (arith, pow-suc 2 k)),
)

-- `x ^ (x >> k)` determines `x`.
xorshift_fuel :
    (n k x y : ℕ) → x ≤ n → y ≤ n → bit_xor x (shr x (suc k)) ≡ bit_xor y (shr y (suc k)) → x ≡ y
xorshift_fuel zero k x y p q h = omega arith
xorshift_fuel (suc n) k x y p q h =
    let s = suc k in
    let high : shr x s ≡ shr y s =
      xorshift_fuel n k (shr x s) (shr y s) (half x p) (half y q)
        (sym (shr-bit_xor s x (shr x s)) ∙ ap (λ t. shr t s) h ∙ shr-bit_xor s y (shr y s)) in
    bit_xor_cancel_right (shr y s) x y (rw high at h)
  where
    half : (z : ℕ) → z ≤ suc n → shr z (suc k) ≤ n
    half z le = rw (pow-suc, ← div-div-eq-div-mul) (omega (arith, div-le_self z (2 ^ k)))

pub xorshift-injective : (k x y : ℕ) → bit_xor x (shr x (suc k)) ≡ bit_xor y (shr y (suc k)) → x ≡ y
xorshift-injective k x y = xorshift_fuel (x + y) k x y (omega arith) (omega arith)
