-- ===== src/Engine.antt =====
-- crates/fusecraft-core/src/engine: `OpContext`, the engine's resources and `run_op`.
-- A call runs on a value of the engine. Its readings of the clocks, and what it finds when it waits
-- for a slot, are the record `Clock`; `body` is a function on a world `W`, which holds whatever the
-- closure changes. `Duration + Duration` panics on overflow, which is an outcome of its own.
pub mod Lifecycle
pub mod Resources
pub mod Slot
pub mod Totality
pub mod Session
pub mod Threads
pub mod Laws
use fusecraft_rs.Base.{
  ℕ, ◌-◌, ◌==◌, Bool, true, false, ◌&&◌, ltb, if◌then◌else◌, List, [], ◌∷◌, Option, none, some, map,
  min, Result, ok, err,
}
use fusecraft_rs.Base.Word.{u32_max, wrapping_add, checked_add, from_micros, as_micros}
use fusecraft_rs.Op.{FsOp, all, op_eq, is_data}
use fusecraft_rs.Error.{Libc, FsError, errno, as_errno}
use fusecraft_rs.Float.{Float, Rng}
use fusecraft_rs.Config.{
  Config, OpPolicy, SizeTier, LatencyProfile, BandwidthProfile, FaultRule, get_policy,
  default_policy,
}
use fusecraft_rs.Sampler.Key.{SampleKey}
use fusecraft_rs.Sampler.Fault.{sample_fault}
use fusecraft_rs.Sampler.Latency.{sample_latency_us}
use fusecraft_rs.Limiter.Concurrency.{
  LimiterState, BlockingLimiter, granted, again, waiting, acquire, enter, release,
}
use fusecraft_rs.Limiter.Concurrency as Concurrency
use fusecraft_rs.Limiter.Bandwidth.{BandwidthLimiter, reserve}
use fusecraft_rs.Limiter.Bandwidth as Bandwidth
use fusecraft_rs.Events.{Event, EventSink, Outcome, success, error}
use fusecraft_rs.Metrics.{Histogram, HistogramRecorder, record_op}
use fusecraft_rs.Metrics as Metrics

pub record OpContext : Type 0 where
  pub op : FsOp
  pub ino : ℕ
  pub offset : ℕ
  pub len : ℕ
  pub requested_len : ℕ

unfoldable pub metadata : FsOp → ℕ → OpContext
metadata op ino = record { op = op; ino = ino; offset = 0; len = 0; requested_len = 0 }

unfoldable pub data_op : FsOp → ℕ → ℕ → ℕ → OpContext
data_op op ino offset len = record {
  op = op;
  ino = ino;
  offset = offset;
  len = len;
  requested_len = len;
}

unfoldable pub with_requested_len : OpContext → ℕ → OpContext
with_requested_len ctx requested_len = record ctx { requested_len = requested_len }

pub record OpResources (F : Type 0) : Type 0 where
  pub policy : OpPolicy F
  pub limiter : BlockingLimiter
  pub bandwidth : Option (BandwidthLimiter F)
  pub large_bandwidth : Option (BandwidthLimiter F)

-- `events` is the state of the sink.
pub record SimEngine (F H S : Type 0) : Type 0 where
  pub seed : ℕ
  pub resources : List (FsOp × OpResources F)
  pub seq : ℕ
  pub events : S
  pub metrics : HistogramRecorder H

-- What a call reads of the clocks, in nanoseconds, and the states of its limiter at its wake-ups.
pub record Clock : Type 0 where
  pub started : ℕ
  pub wakes : List (LimiterState × ℕ)
  pub reserved : ℕ
  pub finished : ℕ
  pub unix_nanos : ℕ

-- `start.elapsed().as_micros() as u64`
unfoldable pub elapsed_us : Clock → ℕ
elapsed_us t = as_micros (t.finished - t.started)

-- `self.resources.get(&op)`, and the change of what it finds.
unfoldable pub get_resources :
    {F : Type 0} → FsOp → List (FsOp × OpResources F) → Option (OpResources F)
get_resources op [] = none
get_resources op ((o, r) ∷ rest) = if op_eq o op then some r else get_resources op rest

unfoldable pub put_resources :
    {F : Type 0} → FsOp → OpResources F → List (FsOp × OpResources F) → List (FsOp × OpResources F)
put_resources op new_r [] = []
put_resources op new_r ((o, r) ∷ rest) =
    if op_eq o op then (o, new_r) ∷ rest else (o, r) ∷ put_resources op new_r rest

-- The condition of the three nested tests of `select_tier`.
unfoldable pub above_threshold : {F : Type 0} → Option (SizeTier F) → ℕ → Bool
above_threshold none requested_len = false
above_threshold (some tier) requested_len = ltb tier.threshold_bytes requested_len

unfoldable pub is_large : {F : Type 0} → OpResources F → FsOp → ℕ → Bool
unfolding above_threshold
is_large r op requested_len = is_data op && above_threshold r.policy.size_tier requested_len

abbrev pub Selected : Type 0 → Type 0
Selected F = LatencyProfile F × List (FaultRule F) × Option (BandwidthLimiter F)

unfoldable pub large_tier : {F : Type 0} → OpResources F → Option (SizeTier F) → ℕ → Selected F
large_tier r none requested_len = (r.policy.latency, r.policy.faults, r.bandwidth)
large_tier r (some tier) requested_len =
    if ltb tier.threshold_bytes requested_len
    then (tier.large.latency, tier.large.faults, r.large_bandwidth)
    else (r.policy.latency, r.policy.faults, r.bandwidth)

unfoldable pub select_tier : {F : Type 0} → OpResources F → FsOp → ℕ → Selected F
unfolding large_tier
select_tier r op requested_len =
    if is_data op
    then large_tier r r.policy.size_tier requested_len
    else (r.policy.latency, r.policy.faults, r.bandwidth)

-- The limiter that `select_tier` gave, charged, goes back where it stands.
unfoldable pub put_bandwidth :
    {F : Type 0} → Bool → Option (BandwidthLimiter F) → OpResources F → OpResources F
put_bandwidth true b r = record r { large_bandwidth = b }
put_bandwidth false b r = record r { bandwidth = b }

-- `.as_ref().map(BandwidthLimiter::new)`
abbrev pub new_bandwidth :
    {F : Type 0} ⦃fl : Float F⦄ → ℕ → Option (BandwidthProfile F) → Option (BandwidthLimiter F)
new_bandwidth now none = none
new_bandwidth now (some p) = some (Bandwidth.new p now)

abbrev pub large_profile : {F : Type 0} → Option (SizeTier F) → Option (BandwidthProfile F)
large_profile none = none
large_profile (some tier) = tier.large.bandwidth

abbrev pub unwrap_or_default : {F : Type 0} ⦃fl : Float F⦄ → Option (OpPolicy F) → OpPolicy F
unwrap_or_default none = default_policy
unwrap_or_default (some p) = p

-- The body of the loop of `new`.
unfoldable pub new_resources : {F : Type 0} ⦃fl : Float F⦄ → Config F → ℕ → FsOp → OpResources F
new_resources c now op =
    let policy = unwrap_or_default (get_policy op c.ops) in
    record {
      policy = policy;
      limiter = Concurrency.new policy.concurrency_cap policy.queue_cap;
      bandwidth = new_bandwidth now policy.bandwidth;
      large_bandwidth = new_bandwidth now (large_profile policy.size_tier);
    }

unfoldable pub new : {F H S : Type 0} ⦃fl : Float F⦄ → Config F → S → ℕ → SimEngine F H S
new c events now = record {
  seed = c.seed;
  resources = map (λ op. (op, new_resources c now op)) all;
  seq = 0;
  events = events;
  metrics = Metrics.new;
}

-- With the null sink, whose state is a unit.
unfoldable pub new_without_events :
    {F H : Type 0} ⦃fl : Float F⦄ → Config F → ℕ → SimEngine F H (Unit {0})
unfolding new
new_without_events c now = new c tt now

-- How `run_op` ends: with a result, in the panic of an overflow or of a missing operation, or not
-- at all, in the queue.
pub data Run (F H S W T : Type 0) : Type 0 where
  returned : Result FsError T → SimEngine F H S → W → Run F H S W T
  panicked : SimEngine F H S → W → Run F H S W T
  blocked : SimEngine F H S → Run F H S W T
