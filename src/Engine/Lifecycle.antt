-- ===== src/Engine/Lifecycle.antt =====
-- `SimEngine::run_op`, step by step.
use fusecraft_rs.Base.{
  ℕ, Bool, true, false, if◌then◌else◌, Option, none, some, min, Result, ok, err,
}
use fusecraft_rs.Base.Word.{u32_max, wrapping_add, checked_add, from_micros, as_micros}
use fusecraft_rs.Op.{FsOp, is_data}
use fusecraft_rs.Error.{Libc, FsError, errno, as_errno}
use fusecraft_rs.Float.{Float, Rng}
use fusecraft_rs.Sampler.Key.{SampleKey}
use fusecraft_rs.Sampler.Fault.{sample_fault}
use fusecraft_rs.Sampler.Latency.{sample_latency_us}
use fusecraft_rs.Limiter.Concurrency as Concurrency
use fusecraft_rs.Limiter.Concurrency.{
  LimiterState, BlockingLimiter, granted, again, waiting, acquire, enter, release,
}
use fusecraft_rs.Limiter.Bandwidth.{BandwidthLimiter, reserve}
use fusecraft_rs.Events.{Event, EventSink, Outcome, success, error}
use fusecraft_rs.Metrics.{Histogram, record_op}
use fusecraft_rs.Engine.{
  OpContext, OpResources, SimEngine, Clock, Run, returned, panicked, blocked, elapsed_us,
  get_resources, put_resources, is_large, select_tier, put_bandwidth,
}

-- The key of the two samplers; the length is clamped to 32 bits.
unfoldable pub sample_key : ℕ → OpContext → ℕ → SampleKey
sample_key seed ctx seq = record {
  seed = seed;
  op = ctx.op;
  ino = ctx.ino;
  offset = ctx.offset;
  len = min ctx.len u32_max;
  seq = seq;
}

-- `emit_event`, and the recording that follows each of its calls.
unfoldable pub event_of : OpContext → ℕ → Outcome → Option ℕ → ℕ → ℕ → ℕ → Clock → Event
unfolding elapsed_us
event_of ctx seq outcome code wait_us latency_us delay_us t = record {
  ts_unix_nanos = t.unix_nanos;
  seq = seq;
  op = ctx.op;
  ino = ctx.ino;
  offset = ctx.offset;
  len = ctx.len;
  outcome = outcome;
  errno = code;
  queue_wait_us = wait_us;
  injected_latency_us = latency_us;
  bandwidth_delay_us = delay_us;
  total_duration_us = elapsed_us t;
}

unfoldable pub is_error : Outcome → Bool
is_error success = false
is_error error = true

-- Step 6's `match &result`.
unfoldable pub classify : {T : Type 0} ⦃libc : Libc⦄ → Result FsError T → Outcome × Option ℕ
classify (ok v) = (success, none)
classify (err e) = (error, some (as_errno e))

-- Step 5: a fault takes the place of the body.
unfoldable pub execute :
    {W T : Type 0} → Option ℕ → (W → Result FsError T × W) → W → Result FsError T × W
execute (some e) body w = (err (errno e), w)
execute none body w = body w

unfoldable pub set_limiter :
    {F H S : Type 0} → FsOp → OpResources F → LimiterState → SimEngine F H S → SimEngine F H S
set_limiter op r s e = record e {
  resources = put_resources op (record r { limiter = record r.limiter { state = s } }) e.resources;
}

unfoldable pub report :
    {F H S : Type 0} ⦃histogram : Histogram H⦄ ⦃sink : EventSink S⦄
    → OpContext
    → Event
    → SimEngine F H S
    → SimEngine F H S
unfolding is_error
report ⦃sink = sink⦄ ctx ev e = record e {
  events = sink.emit e.events ev;
  metrics = record_op e.metrics ctx.op ev.total_duration_us (is_error ev.outcome);
}

-- Step 3 charges the limiter that was selected, for data operations alone.
unfoldable pub bandwidth_step :
    {F : Type 0} ⦃fl : Float F⦄
    → OpContext
    → Option (BandwidthLimiter F)
    → ℕ
    → ℕ × Option (BandwidthLimiter F)
bandwidth_step ctx none now = (0, none)
bandwidth_step ctx (some b) now =
    let (wait, b') = reserve b ctx.len now in
    if is_data ctx.op then (wait, some b') else (0, some b)

-- Step 4: the sum of the two delays.
unfoldable pub after_sum :
    {F H S W T : Type 0} → Option ℕ → Run F H S W T → SimEngine F H S → W → Run F H S W T
after_sum none rest e w = panicked e w
after_sum (some sleep_for) rest e w = rest

module _ {F H S W T : Type 0} ⦃fl : Float F⦄ ⦃rng : Rng F⦄ ⦃libc : Libc⦄ ⦃histogram : Histogram H⦄
    ⦃sink : EventSink S⦄ where
  -- Steps 5 to 7, after the sleep. `e` holds the engine with the slot given back.
  unfoldable pub complete :
      OpContext
      → ℕ
      → Option ℕ
      → ℕ
      → ℕ
      → ℕ
      → Clock
      → (W → Result FsError T × W)
      → SimEngine F H S
      → W
      → Run F H S W T
  unfolding execute classify event_of report
  complete ctx seq fault wait latency_us delay t body e w =
      let (result, w') = execute fault body w in
      let (outcome, code) = classify result in
      let ev = event_of ctx seq outcome code (as_micros wait) latency_us (as_micros delay) t in
      returned result (report ctx ev e) w'

  -- Steps 2 to 7: the caller holds a slot of the limiter in state `s`, having queued for `wait`.
  unfoldable pub with_slot :
      OpContext
      → ℕ
      → ℕ
      → LimiterState
      → Clock
      → (W → Result FsError T × W)
      → OpResources F
      → SimEngine F H S
      → W
      → Run F H S W T
  unfolding sample_key select_tier bandwidth_step put_bandwidth set_limiter complete after_sum
      is_large
  with_slot ctx seq wait s t body r e w =
      let (latency_profile, faults, bandwidth) = select_tier r ctx.op ctx.requested_len in
      let key = sample_key e.seed ctx seq in
      let fault = sample_fault faults key in
      let latency_us = sample_latency_us latency_profile key in
      let (delay, charged) = bandwidth_step ctx bandwidth t.reserved in
      let r' = put_bandwidth (is_large r ctx.op ctx.requested_len) charged r in
      let e' = set_limiter ctx.op r' (release s) e in
      after_sum (checked_add (from_micros latency_us) delay)
        (complete ctx seq fault wait latency_us delay t body e' w) e' w

  -- Step 1: what becomes of the acquisition.
  unfoldable pub after_acquire :
      OpContext
      → ℕ
      → Clock
      → (W → Result FsError T × W)
      → OpResources F
      → Concurrency.Outcome
      → SimEngine F H S
      → W
      → Run F H S W T
  unfolding with_slot set_limiter event_of report as_errno enter
  after_acquire ctx seq t body r (granted wait s) e w = with_slot ctx seq wait s t body r e w
  after_acquire ctx seq t body r (again s) e w =
      let n = as_errno (errno libc.eagain) in
      returned (err (errno n))
        (report ctx (event_of ctx seq error (some n) 0 0 0 t) (set_limiter ctx.op r s e)) w
  after_acquire ctx seq t body r waiting e w =
      blocked (set_limiter ctx.op r (enter r.limiter.cap r.limiter.queue_cap r.limiter.state).1 e)

  unfoldable pub with_resources :
      OpContext
      → ℕ
      → Clock
      → (W → Result FsError T × W)
      → Option (OpResources F)
      → SimEngine F H S
      → W
      → Run F H S W T
  unfolding after_acquire acquire
  with_resources ctx seq t body none e w = panicked e w
  with_resources ctx seq t body (some r) e w =
      after_acquire ctx seq t body r (acquire r.limiter t.wakes) e w

  unfoldable pub run_op :
      OpContext → Clock → (W → Result FsError T × W) → SimEngine F H S → W → Run F H S W T
  unfolding with_resources get_resources
  run_op ctx t body e w =
      with_resources ctx e.seq t body (get_resources ctx.op e.resources)
        (record e { seq = wrapping_add e.seq 1 }) w
