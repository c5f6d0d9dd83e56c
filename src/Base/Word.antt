-- ===== src/Base/Word.antt =====
-- Machine words as native numbers: arithmetic of `u64` and `Duration` as the Rust code uses it.
use Prim.Native.Nat.{ℕ, ◌+◌, ◌-◌, ◌*◌, ◌/◌, ◌%◌, ◌^◌, min}
use mathlib.Core.Option.{Option, none, some}
use fusecraft_rs.Base.Tests.{ltb, if◌then◌else◌}

abbrev pub u64_mod : ℕ
u64_mod = 2 ^ 64

abbrev pub u32_max : ℕ
u32_max = 2 ^ 32 - 1

abbrev pub u64_max : ℕ
u64_max = 2 ^ 64 - 1

-- `as u64`, and the wrapping sum and product.
abbrev pub to_u64 : ℕ → ℕ
to_u64 n = n % u64_mod

abbrev pub wrapping_add : ℕ → ℕ → ℕ
wrapping_add a b = (a + b) % u64_mod

abbrev pub wrapping_sub : ℕ → ℕ → ℕ
wrapping_sub a b = (a + u64_mod - b) % u64_mod

abbrev pub wrapping_mul : ℕ → ℕ → ℕ
wrapping_mul a b = a * b % u64_mod

abbrev pub saturating_add : ℕ → ℕ → ℕ
saturating_add a b = min (a + b) u64_max

-- `x.rotate_left(k)` for 0 < k < 64.
abbrev pub rotate_left : ℕ → ℕ → ℕ
rotate_left x k = x * 2 ^ k % u64_mod + x / 2 ^ (64 - k)

abbrev pub shr : ℕ → ℕ → ℕ
shr x k = x / 2 ^ k

-- A `Duration` is its number of nanoseconds, at most `duration_max`.
abbrev pub duration_max : ℕ
duration_max = 2 ^ 64 * 1000000000 - 1

-- `Duration::checked_add`; the operator `+` panics where this gives `none`.
abbrev pub checked_add : ℕ → ℕ → Option ℕ
checked_add a b = if ltb duration_max (a + b) then none else some (a + b)

abbrev pub from_micros : ℕ → ℕ
from_micros us = us * 1000

-- `as_micros() as u64`
abbrev pub as_micros : ℕ → ℕ
as_micros ns = to_u64 (ns / 1000)
