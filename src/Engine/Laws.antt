-- ===== src/Engine/Laws.antt =====
-- What one call does to the log, the metrics, the limiter and the world.
use fusecraft_rs.Base.{ℕ, ◌≡◌, refl, ap, Option, none, some, Result}
use fusecraft_rs.Base.Word.{wrapping_add, as_micros}
use fusecraft_rs.Error.{Libc, FsError}
use fusecraft_rs.Float.{Float, Rng}
use fusecraft_rs.Limiter.Concurrency.{
  LimiterState, granted, again, waiting, acquire, enter, release,
}
use fusecraft_rs.Limiter.Concurrency as Concurrency
use fusecraft_rs.Events.{Event, EventSink}
use fusecraft_rs.Metrics.{Histogram, record_op}
use fusecraft_rs.Engine.{
  OpContext, OpResources, SimEngine, Clock, Run, returned, panicked, blocked, get_resources,
}
use fusecraft_rs.Engine.Lifecycle.{
  event_of, is_error, classify, execute, set_limiter, report, complete, after_sum, with_slot,
  after_acquire, with_resources, run_op,
}

module _ {F H S W T : Type 0} ⦃fl : Float F⦄ ⦃rng : Rng F⦄ ⦃libc : Libc⦄ ⦃histogram : Histogram H⦄
    ⦃sink : EventSink S⦄ where
  open sink use {emit}

  -- What a call leaves in the log and in the metrics, by the way it ends.
  abbrev pub IsReported : OpContext → SimEngine F H S → W → Run F H S W T → Type 0
  IsReported ctx e w (returned result e' w') =
      (e'.seq ≡ wrapping_add e.seq 1)
      × ((ev : Event) × (e'.events ≡ emit e.events ev)
          × (e'.metrics ≡ record_op e.metrics ctx.op ev.total_duration_us (is_error ev.outcome))
          × ((ev.outcome, ev.errno) ≡ classify result)
          × (ev.seq ≡ e.seq)
          × (ev.op ≡ ctx.op)
          × (ev.ino ≡ ctx.ino)
          × (ev.offset ≡ ctx.offset)
          × (ev.len ≡ ctx.len))
  IsReported ctx e w (panicked e' w') =
      (e'.seq ≡ wrapping_add e.seq 1) × (e'.events ≡ e.events) × (e'.metrics ≡ e.metrics) × (w' ≡ w)
  IsReported ctx e w (blocked e') =
      (e'.seq ≡ wrapping_add e.seq 1) × (e'.events ≡ e.events) × (e'.metrics ≡ e.metrics)

  after_sum-IsReported :
      (ctx : OpContext) (sum : Option ℕ) (wait latency_us delay : ℕ) (fault : Option ℕ) (t : Clock)
      (body : W → Result FsError T × W) (e e' : SimEngine F H S) (w : W)
      → e'.seq ≡ wrapping_add e.seq 1
      → e'.events ≡ e.events
      → e'.metrics ≡ e.metrics
      → IsReported ctx e w
          (after_sum sum (complete ctx e.seq fault wait latency_us delay t body e' w) e' w)
  unfolding after_sum complete report event_of
  after_sum-IsReported ctx none wait latency_us delay fault t body e e' w p q m = (p, q, m, refl)
  after_sum-IsReported ctx (some d) wait latency_us delay fault t body e e' w p q m =
      let ran = execute fault body w in
      let found = classify ran.0 in
      let ev = event_of ctx e.seq found.0 found.1 (as_micros wait) latency_us (as_micros delay) t in
      (
        p,
        (
          ev,
          ap (λ s. emit s ev) q,
          ap (λ s. record_op s ctx.op ev.total_duration_us (is_error ev.outcome)) m,
          refl,
          refl,
          refl,
          refl,
          refl,
          refl,
        ),
      )

  after_acquire-IsReported :
      (ctx : OpContext) (t : Clock) (body : W → Result FsError T × W) (r : OpResources F)
      (acquired : Concurrency.Outcome) (e : SimEngine F H S) (w : W)
      → IsReported ctx e w
          (after_acquire ctx e.seq t body r acquired (record e { seq = wrapping_add e.seq 1 }) w)
  unfolding after_acquire with_slot set_limiter report event_of classify
  after_acquire-IsReported ctx t body r (granted wait s) e w =
      after_sum-IsReported ctx _ wait _ _ _ t body e _ w refl refl refl
  after_acquire-IsReported ctx t body r (again s) e w =
      (refl, (_, refl, refl, refl, refl, refl, refl, refl, refl))
  after_acquire-IsReported ctx t body r waiting e w = (refl, refl, refl)

  with_resources-IsReported :
      (ctx : OpContext) (t : Clock) (body : W → Result FsError T × W)
      (found : Option (OpResources F)) (e : SimEngine F H S) (w : W)
      → IsReported ctx e w
          (with_resources ctx e.seq t body found (record e { seq = wrapping_add e.seq 1 }) w)
  unfolding with_resources
  with_resources-IsReported ctx t body none e w = (refl, refl, refl, refl)
  with_resources-IsReported ctx t body (some r) e w =
      after_acquire-IsReported ctx t body r (acquire r.limiter t.wakes) e w

  -- Every call takes one sequence number, however it ends. A call that returns, with the body's
  -- result, a fault or EAGAIN, has emitted exactly one event and recorded exactly one duration,
  -- the event's: the event has the call's number, operation, inode, offset and length, and its
  -- outcome and errno are those of the result that the caller gets. A call that panics has
  -- emitted and recorded nothing and leaves the world unchanged, and a call that waits in the
  -- queue has emitted and recorded nothing yet.
  pub run_op-IsReported :
      (ctx : OpContext) (t : Clock) (body : W → Result FsError T × W) (e : SimEngine F H S) (w : W)
      → IsReported ctx e w (run_op ctx t body e w)
  unfolding run_op
  run_op-IsReported ctx t body e w =
      with_resources-IsReported ctx t body (get_resources ctx.op e.resources) e w
