-- ===== src/Engine/Totality.antt =====
-- When a call that got its slot is sure to return, and when the saturated wait of a bandwidth
-- limiter makes it panic.
use fusecraft_rs.Base.{
  ℕ, ◌<◌, ◌≤◌, ◌≡◌, refl, ap, ◌∙◌, true, if◌then◌else◌, Option, none, some, Result, arith,
}
use fusecraft_rs.Base.Word.{u64_max, duration_max}
use fusecraft_rs.Op.{is_data}
use fusecraft_rs.Error.{Libc, FsError}
use fusecraft_rs.Float.{Float, Rng}
use fusecraft_rs.Sampler.Latency.Laws.{sample_latency_us-le}
use fusecraft_rs.Limiter.Concurrency.{LimiterState, granted, acquire}
use fusecraft_rs.Limiter.Bandwidth.{BandwidthLimiter, reserve}
use fusecraft_rs.Events.{EventSink}
use fusecraft_rs.Metrics.{Histogram}
use fusecraft_rs.Engine.{
  OpContext, OpResources, SimEngine, Clock, returned, panicked, get_resources, select_tier,
}
use fusecraft_rs.Engine.Slot.{latency_of, delay_of, after_call, run_op_fits, run_op_exceeds}
use fusecraft_rs.Engine.Lifecycle.{sample_key, bandwidth_step, complete, set_limiter, run_op}

module _ {F H S W T : Type 0} ⦃fl : Float F⦄ ⦃rng : Rng F⦄ ⦃libc : Libc⦄ ⦃histogram : Histogram H⦄
    ⦃sink : EventSink S⦄ (ctx : OpContext) (t : Clock) (body : W → Result FsError T × W)
    (r : OpResources F) (e : SimEngine F H S) (w : W) (wait : ℕ) (s : LimiterState)
    (found : get_resources ctx.op e.resources ≡ some r)
    (got : acquire r.limiter t.wakes ≡ granted wait s) where
  latency_of-le :
      (select_tier r ctx.op ctx.requested_len).0.max_us ≤ u64_max → latency_of e ctx r ≤ u64_max
  unfolding latency_of
  latency_of-le h = omega (
    arith,
    sample_latency_us-le (select_tier r ctx.op ctx.requested_len).0 (sample_key e.seed ctx e.seq),
  )

  undelayed :
      (if is_data ctx.op then (select_tier r ctx.op ctx.requested_len).2 else none) ≡ none
      → delay_of ctx t r ≡ 0
  unfolding delay_of bandwidth_step
  undelayed h = ground arith

  saturated_delay :
      (b : BandwidthLimiter F)
      → is_data ctx.op ≡ true
      → (select_tier r ctx.op ctx.requested_len).2 ≡ some b
      → (reserve b ctx.len t.reserved).0 ≡ duration_max
      → delay_of ctx t r ≡ duration_max
  unfolding delay_of bandwidth_step
  saturated_delay b data_ limited saturated =
      ap (λ (o : Option (BandwidthLimiter F)). (bandwidth_step ctx o t.reserved).0) limited
      ∙ rw data_ saturated

  -- A call that got a slot returns a result, if the tier that is selected for it has no bandwidth
  -- limiter, or the operation is neither a read nor a write, and the tier's latency maximum fits
  -- a `u64`.
  pub run_op_returns :
      (if is_data ctx.op then (select_tier r ctx.op ctx.requested_len).2 else none) ≡ none
      → (select_tier r ctx.op ctx.requested_len).0.max_us ≤ u64_max
      → (result : Result FsError T) × (e' : SimEngine F H S) × (w' : W) × (run_op ctx t body e w
          ≡ returned result e' w')
  unfolding complete
  run_op_returns free bound = (
    _,
    _,
    _,
    run_op_fits ctx t body r e w wait s found got
        (omega (arith, latency_of-le bound, undelayed free)),
  )

  -- A read or a write that got a slot, has a positive latency and whose bandwidth limiter answers
  -- with the longest `Duration` panics: its body has not run, and no event and no metric tells of
  -- it.
  pub run_op_saturated :
      (b : BandwidthLimiter F)
      → is_data ctx.op ≡ true
      → (select_tier r ctx.op ctx.requested_len).2 ≡ some b
      → (reserve b ctx.len t.reserved).0 ≡ duration_max
      → 0 < latency_of e ctx r
      → (e' : SimEngine F H S) × (run_op ctx t body e w ≡ panicked e' w)
        × (e'.events ≡ e.events)
        × (e'.metrics ≡ e.metrics)
  unfolding after_call set_limiter
  run_op_saturated b data_ limited saturated some_latency = (
    after_call ctx t r s e,
    run_op_exceeds ctx t body r e w wait s found got
        (omega (arith, saturated_delay b data_ limited saturated)),
    refl,
    refl,
  )
