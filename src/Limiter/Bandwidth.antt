-- ===== src/Limiter/Bandwidth.antt =====
-- crates/fusecraft-core/src/limiter/bandwidth.rs: the token bucket. Each method's reading of the
-- clock is an argument, in nanoseconds; a wait is a `Duration` in nanoseconds.
pub mod Laws
use fusecraft_rs.Base.{ℕ, ◌+◌, ◌-◌, ◌==◌, Bool, if◌then◌else◌, Option, none, some}
use fusecraft_rs.Base.Word.{saturating_add, wrapping_add, duration_max}
use fusecraft_rs.Float.{Float}
use fusecraft_rs.Config.{BandwidthProfile}

pub record BandwidthStats (F : Type 0) : Type 0 where
  pub tokens_available : F
  pub bytes_per_sec : F
  pub burst_bytes : ℕ
  pub total_bytes_reserved : ℕ
  pub total_throttled : ℕ

pub record BucketState (F : Type 0) : Type 0 where
  pub tokens : F
  pub last : ℕ
  pub total_bytes_reserved : ℕ
  pub total_throttled : ℕ

pub record BandwidthLimiter (F : Type 0) : Type 0 where
  pub rate : F
  pub capacity : F
  pub state : BucketState F

-- `unwrap_or(Duration::MAX)`
abbrev pub or_max : Option ℕ → ℕ
or_max none = duration_max
or_max (some d) = d

module _ {F : Type 0} ⦃fl : Float F⦄ where
  open fl use {zero, lt, le, add, sub, mul, div, neg, fmin, fmax, of_u64, as_u64}
  open fl use {as_secs_f64, try_from_secs_f64}

  unfoldable pub new : BandwidthProfile F → ℕ → BandwidthLimiter F
  new p now = record {
    rate = p.bytes_per_sec;
    capacity = of_u64 p.burst_bytes;
    state = record {
      tokens = of_u64 p.burst_bytes;
      last = now;
      total_bytes_reserved = 0;
      total_throttled = 0;
    };
  }

  -- `now - last` stops at 0, as `Instant::duration_since` does.
  unfoldable pub refill : BandwidthLimiter F → BucketState F → ℕ → BucketState F
  refill b s now =
      let elapsed = now - s.last in
      if elapsed == 0
      then s
      else if lt zero b.rate
      then record s {
        tokens = fmin (add s.tokens (mul (as_secs_f64 elapsed) b.rate)) b.capacity;
        last = now;
      }
      else record s { last = now }

  -- From the subtraction on: the wait and the new state.
  unfoldable pub charge : F → BucketState F → ℕ → ℕ × BucketState F
  charge rate s bytes =
      let tokens = sub s.tokens (of_u64 bytes) in
      if le zero tokens then (0, record s { tokens = tokens }) else (
        or_max (try_from_secs_f64 (div (neg tokens) rate)),
        record s { tokens = tokens; total_throttled = wrapping_add s.total_throttled 1 },
      )

  unfoldable pub reserve : BandwidthLimiter F → ℕ → ℕ → ℕ × BandwidthLimiter F
  unfolding refill charge
  reserve b bytes now =
      let s = record b.state {
        total_bytes_reserved = saturating_add b.state.total_bytes_reserved bytes;
      } in
      let (wait, s') = charge b.rate (refill b s now) bytes in
      if bytes == 0
      then (0, b)
      else if le b.rate zero
      then (0, record b { state = s })
      else (wait, record b { state = s' })

  unfoldable pub stats : BandwidthLimiter F → ℕ → BandwidthStats F × BandwidthLimiter F
  unfolding refill
  stats b now =
      let s = refill b b.state now in
      (
        record {
          tokens_available = fmax s.tokens zero;
          bytes_per_sec = b.rate;
          burst_bytes = as_u64 b.capacity;
          total_bytes_reserved = s.total_bytes_reserved;
          total_throttled = s.total_throttled;
        },
        record b { state = s },
      )
