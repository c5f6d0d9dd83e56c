-- ===== src/Engine/Slot.antt =====
-- A call that gets a slot: how it ends, what it does to the world, and what it gives back.
use fusecraft_rs.Base.{
  ℕ, ◌+◌, ◌<◌, ◌≤◌, ◌≡◌, ◌↔◌, refl, ap, sym, ◌∙◌, subst, Bool, true, false, Bool-cases, inl, inr,
  ltb, lt→ltb, ltb→lt, le→ltb, if◌then◌else◌, List, Option, none, some, Result, err, arith,
}
use fusecraft_rs.Base.Word.{wrapping_add, duration_max, checked_add, from_micros}
use fusecraft_rs.Op.{FsOp, op_eq}
use fusecraft_rs.Error.{Libc, FsError, errno}
use fusecraft_rs.Float.{Float, Rng}
use fusecraft_rs.Sampler.Fault.{sample_fault}
use fusecraft_rs.Sampler.Latency.{sample_latency_us}
use fusecraft_rs.Limiter.Concurrency.{LimiterState, BlockingLimiter, granted, acquire, release}
use fusecraft_rs.Limiter.Bandwidth.{BandwidthLimiter}
use fusecraft_rs.Events.{EventSink}
use fusecraft_rs.Metrics.{Histogram}
use fusecraft_rs.Engine.{
  OpContext, OpResources, SimEngine, Clock, Run, returned, panicked, blocked, get_resources,
  put_resources, put_bandwidth, is_large, select_tier,
}
use fusecraft_rs.Engine.Resources.{get-put}
use fusecraft_rs.Engine.Lifecycle.{
  sample_key, execute, set_limiter, report, bandwidth_step, complete, after_sum, with_slot,
  after_acquire, with_resources, run_op,
}

-- What the samplers draw for a call, and how long its bandwidth limiter makes it wait.
unfoldable pub fault_of :
    {F H S : Type 0} ⦃fl : Float F⦄ ⦃rng : Rng F⦄
    → SimEngine F H S
    → OpContext
    → OpResources F
    → Option ℕ
fault_of e ctx r =
    sample_fault (select_tier r ctx.op ctx.requested_len).1 (sample_key e.seed ctx e.seq)

unfoldable pub latency_of :
    {F H S : Type 0} ⦃fl : Float F⦄ ⦃rng : Rng F⦄ → SimEngine F H S → OpContext → OpResources F → ℕ
latency_of e ctx r =
    sample_latency_us (select_tier r ctx.op ctx.requested_len).0 (sample_key e.seed ctx e.seq)

unfoldable pub delay_of : {F : Type 0} ⦃fl : Float F⦄ → OpContext → Clock → OpResources F → ℕ
delay_of ctx t r = (bandwidth_step ctx (select_tier r ctx.op ctx.requested_len).2 t.reserved).0

-- The engine that the call leaves behind, but for the report: the slot is given back.
unfoldable pub after_call :
    {F H S : Type 0} ⦃fl : Float F⦄
    → OpContext
    → Clock
    → OpResources F
    → LimiterState
    → SimEngine F H S
    → SimEngine F H S
after_call ctx t r s e =
    set_limiter ctx.op
      (put_bandwidth (is_large r ctx.op ctx.requested_len)
        (bandwidth_step ctx (select_tier r ctx.op ctx.requested_len).2 t.reserved).1 r)
      (release s) (record e { seq = wrapping_add e.seq 1 })

put_bandwidth_keeps :
    {F : Type 0} (b : Bool) (charged : Option (BandwidthLimiter F)) (r : OpResources F)
    → ((put_bandwidth b charged r).limiter ≡ r.limiter)
      × ((put_bandwidth b charged r).policy ≡ r.policy)
unfolding put_bandwidth
put_bandwidth_keeps true charged r = (refl, refl)
put_bandwidth_keeps false charged r = (refl, refl)

module _ {F H S W T : Type 0} ⦃fl : Float F⦄ ⦃rng : Rng F⦄ ⦃libc : Libc⦄ ⦃histogram : Histogram H⦄
    ⦃sink : EventSink S⦄ (ctx : OpContext) (t : Clock) (body : W → Result FsError T × W)
    (r : OpResources F) (e : SimEngine F H S) (w : W) (wait : ℕ) (s : LimiterState)
    (found : get_resources ctx.op e.resources ≡ some r)
    (got : acquire r.limiter t.wakes ≡ granted wait s) where
  run_op-after_sum :
      run_op ctx t body e w
      ≡ after_sum
          (checked_add (from_micros (latency_of e ctx r)) (delay_of ctx t r))
          (complete ctx e.seq
            (fault_of e ctx r)
            wait
            (latency_of e ctx r)
            (delay_of ctx t r)
            t
            body
            (after_call ctx t r s e)
            w)
          (after_call ctx t r s e)
          w
  unfolding run_op with_resources after_acquire with_slot fault_of latency_of delay_of after_call
  run_op-after_sum = rw (found, got) refl

  pub run_op_fits :
      from_micros (latency_of e ctx r) + delay_of ctx t r ≤ duration_max
      → run_op ctx t body e w
        ≡ complete ctx e.seq
            (fault_of e ctx r)
            wait
            (latency_of e ctx r)
            (delay_of ctx t r)
            t
            body
            (after_call ctx t r s e)
            w
  unfolding after_sum
  run_op_fits fits =
      run_op-after_sum
      ∙ rw (le→ltb duration_max (from_micros (latency_of e ctx r) + delay_of ctx t r) fits) refl

  pub run_op_exceeds :
      duration_max < from_micros (latency_of e ctx r) + delay_of ctx t r
      → run_op ctx t body e w ≡ panicked (after_call ctx t r s e) w
  unfolding after_sum
  run_op_exceeds over =
      run_op-after_sum
      ∙ rw (lt→ltb duration_max (from_micros (latency_of e ctx r) + delay_of ctx t r) over) refl

  -- A call that got a slot and draws no fault, and whose two delays fit a `Duration`, returns
  -- what the body returns, and has changed the world as one run of the body does.
  pub run_op_no_fault :
      from_micros (latency_of e ctx r) + delay_of ctx t r ≤ duration_max
      → fault_of e ctx r ≡ none
      → (e' : SimEngine F H S) × (run_op ctx t body e w ≡ returned (body w).0 e' (body w).1)
  unfolding complete execute
  run_op_no_fault fits no_fault = (
    _,
    run_op_fits fits
        ∙ ap
            (λ f.
              complete ctx e.seq f wait (latency_of e ctx r) (delay_of ctx t r) t body
                (after_call ctx t r s e) w)
            no_fault,
  )

  -- A call that got a slot and draws a fault, and whose two delays fit a `Duration`, returns the
  -- fault's errno, and the world is unchanged: the body does not run.
  pub run_op_fault :
      (n : ℕ)
      → from_micros (latency_of e ctx r) + delay_of ctx t r ≤ duration_max
      → fault_of e ctx r ≡ some n
      → (e' : SimEngine F H S) × (run_op ctx t body e w ≡ returned (err (errno n)) e' w)
  unfolding complete execute
  run_op_fault n fits fault = (
    _,
    run_op_fits fits
        ∙ ap
            (λ f.
              complete ctx e.seq f wait (latency_of e ctx r) (delay_of ctx t r) t body
                (after_call ctx t r s e) w)
            fault,
  )

  returned≠panicked :
      (result : Result FsError T) (e1 e2 : SimEngine F H S) (w1 w2 : W)
      → returned result e1 w1 ≡ panicked e2 w2
      → ⊥
  returned≠panicked result e1 e2 w1 w2 h = cc h

  -- A call that got a slot panics exactly when its injected latency and its bandwidth delay
  -- together exceed the longest `Duration`.
  pub run_op_panics_iff :
      ((e' : SimEngine F H S) × (w' : W) × (run_op ctx t body e w ≡ panicked e' w'))
      ↔ (duration_max < from_micros (latency_of e ctx r) + delay_of ctx t r)
  unfolding complete
  run_op_panics_iff = (only_if, λ over. (_, w, run_op_exceeds over))
    where
      only_if :
          ((e' : SimEngine F H S) × (w' : W) × (run_op ctx t body e w ≡ panicked e' w'))
          → duration_max < from_micros (latency_of e ctx r) + delay_of ctx t r
      only_if (e', w', p) =
          elim (Bool-cases
            (ltb duration_max (from_micros (latency_of e ctx r) + delay_of ctx t r))) [
              | inl over ↦
                  ltb→lt duration_max (from_micros (latency_of e ctx r) + delay_of ctx t r) over
              | inr fits ↦
                  absurd (returned≠panicked _ _ _ _ _ (sym (run_op_fits (ground arith)) ∙ p))
            ]

  -- The table after the call: the operation's limiter has its slot back, its bounds and its policy
  -- are those it had, and the other operations have what they had.
  abbrev pub IsRestored : List (FsOp × OpResources F) → Type 0
  IsRestored table =
      (r' : OpResources F) × ((o : FsOp)
        → get_resources o table ≡ (if op_eq ctx.op o then some r' else get_resources o e.resources))
      × (r'.limiter ≡ record r.limiter { state = release s })
      × (r'.policy ≡ r.policy)

  abbrev pub IsReturnedSlot : Run F H S W T → Type 0
  IsReturnedSlot (returned result e' w') = IsRestored e'.resources
  IsReturnedSlot (panicked e' w') = IsRestored e'.resources
  IsReturnedSlot (blocked e') = ⊥

  put-IsRestored :
      (r' : OpResources F)
      → r'.limiter ≡ record r.limiter { state = release s }
      → r'.policy ≡ r.policy
      → IsRestored (put_resources ctx.op r' e.resources)
  put-IsRestored r' same_limiter same_policy =
      (r', λ o. get-put ctx.op o r r' e.resources found, same_limiter, same_policy)

  after_call-IsRestored : IsRestored (after_call ctx t r s e).resources
  unfolding after_call set_limiter
  after_call-IsRestored =
      let b = is_large r ctx.op ctx.requested_len in
      let charged = (bandwidth_step ctx (select_tier r ctx.op ctx.requested_len).2 t.reserved).1 in
      let kept = put_bandwidth_keeps b charged r in
      put-IsRestored _ (ap (λ (l : BlockingLimiter). record l { state = release s }) kept.0) kept.1

  -- A call that got a slot gives it back whether it returns or panics, keeps the limiter's bounds
  -- and the policy, and changes no other operation's resources.
  pub run_op-IsReturnedSlot : IsReturnedSlot (run_op ctx t body e w)
  unfolding complete report
  run_op-IsReturnedSlot =
      elim (Bool-cases (ltb duration_max (from_micros (latency_of e ctx r) + delay_of ctx t r))) [
        | inl over ↦
            subst IsReturnedSlot
              (sym (
                run_op_exceeds
                  (ltb→lt duration_max (from_micros (latency_of e ctx r) + delay_of ctx t r) over)))
              after_call-IsRestored
        | inr fits ↦ subst IsReturnedSlot (sym (run_op_fits (ground arith))) after_call-IsRestored
      ]
