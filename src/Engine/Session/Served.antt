-- ===== src/Engine/Session/Served.antt =====
-- One call on an engine without bandwidth limits whose limiters are idle: it gets its slot at once,
-- returns, logs the expected event, and leaves the limiters idle.
use fusecraft_rs.Base.{
  ℕ, ◌+◌, ◌≤◌, ◌≡◌, refl, ap, sym, ◌∙◌, subst, Bool, true, false, Bool-cases, inl, inr,
  if◌then◌else◌, Option, none, some, err, arith,
}
use fusecraft_rs.Base.Word.{wrapping_add, duration_max, from_micros}
use fusecraft_rs.Op.{FsOp, op_eq}
use fusecraft_rs.Op.Laws.{op_eq_iff}
use fusecraft_rs.Error.{Libc, errno}
use fusecraft_rs.Float.{Float, Rng}
use fusecraft_rs.Config.{Config, OpPolicy}
use fusecraft_rs.Sampler.Fault.{sample_fault}
use fusecraft_rs.Sampler.Latency.{sample_latency_us}
use fusecraft_rs.Sampler.Latency.Laws.{sample_latency_us-le}
use fusecraft_rs.Limiter.Concurrency.{LimiterState, admit, release}
use fusecraft_rs.Limiter.Concurrency.Branches.{acquire_free}
use fusecraft_rs.Limiter.Bandwidth.{BandwidthLimiter}
use fusecraft_rs.Events.{Event, EventSink}
use fusecraft_rs.Metrics.{Histogram}
use fusecraft_rs.Engine.{
  OpContext, OpResources, SimEngine, get_resources, put_resources, put_bandwidth, is_large,
  select_tier, new,
}
use fusecraft_rs.Engine.Resources.{get-put, get_resources-new}
use fusecraft_rs.Engine.Slot.{fault_of, latency_of, delay_of, after_call, run_op_fits}
use fusecraft_rs.Engine.Lifecycle.{
  sample_key, event_of, classify, execute, set_limiter, report, bandwidth_step, complete, run_op,
}
use fusecraft_rs.Engine.Session.{Request, answer_of, after}
use fusecraft_rs.Engine.Session.Quiet.{
  IsTame, IsQuiet, policy_of, tier_of, Selection, select_tier-Selection, new_resources-IsQuiet,
}
use fusecraft_rs.Engine.Session.Expected.{timeless, fault_at, latency_at, expected_event}

-- An engine between the calls of a session.
pub record IsQuietEngine {F H S : Type 0} ⦃fl : Float F⦄ (c : Config F) (e : SimEngine F H S)
    : Type 0 where
  pub seed : e.seed ≡ c.seed
  pub found :
      (op : FsOp)
      → (r : OpResources F) × (get_resources op e.resources ≡ some r) × IsQuiet (policy_of c op) r

pub new-IsQuietEngine :
    {F S : Type 0} (H : Type 0) ⦃fl : Float F⦄ (c : Config F) (events : S) (now : ℕ)
    → ((op : FsOp) → IsTame (policy_of c op))
    → IsQuietEngine c (new {H = H} c events now)
new-IsQuietEngine H c events now tame = record {
  seed = unfold new in refl;
  found = λ op. (_, get_resources-new H c events now op, new_resources-IsQuiet c now op (tame op));
}

bandwidth_step-none :
    {F : Type 0} ⦃fl : Float F⦄ (ctx : OpContext) (b : Option (BandwidthLimiter F)) (now : ℕ)
    → b ≡ none
    → bandwidth_step ctx b now ≡ (0, none)
unfolding bandwidth_step
bandwidth_step-none ctx b now h = rw h refl

put-IsQuiet :
    {F : Type 0} (p : OpPolicy F) (r : OpResources F) (large : Bool)
    (b : Option (BandwidthLimiter F)) (s : LimiterState)
    → IsQuiet p r
    → b ≡ none
    → s.inflight ≡ 0
    → IsQuiet p (record (put_bandwidth large b r) {
      limiter = record (put_bandwidth large b r).limiter { state = s };
    })
unfolding put_bandwidth
put-IsQuiet p r true b s q h idle = record {
  policy = q.policy;
  idle = idle;
  cap = q.cap;
  unlimited = q.unlimited;
  large_unlimited = h;
}
put-IsQuiet p r false b s q h idle = record {
  policy = q.policy;
  idle = idle;
  cap = q.cap;
  unlimited = h;
  large_unlimited = q.large_unlimited;
}

release-admit : (s : LimiterState) → s.inflight ≡ 0 → (release (admit s)).inflight ≡ 0
unfolding release admit
release-admit s h = omega arith

module _ {F H S W T : Type 0} ⦃fl : Float F⦄ ⦃rng : Rng F⦄ ⦃libc : Libc⦄ ⦃histogram : Histogram H⦄
    ⦃sink : EventSink S⦄ (c : Config F) (tame : (op : FsOp) → IsTame (policy_of c op)) where
  -- One call on a quiet engine.
  pub record Served (q : Request W T) (e e' : SimEngine F H S) : Type 0 where
    pub ev : Event
    pub logged : e'.events ≡ sink.emit e.events ev
    pub expected : timeless ev ≡ expected_event c e.seq (q.ctx, answer_of q)
    pub quiet : IsQuietEngine c e'
    pub next : e'.seq ≡ wrapping_add e.seq 1

  complete-Served :
      (q : Request W T) (e e1 : SimEngine F H S) (fault : Option ℕ)
      → fault_at c e.seq q.ctx ≡ fault
      → IsQuietEngine c e1
      → e1.events ≡ e.events
      → e1.seq ≡ wrapping_add e.seq 1
      → Served q e (
          after
            (complete q.ctx e.seq fault 0 (latency_at c e.seq q.ctx) 0 q.clock q.body e1 q.world))
  unfolding after complete execute report event_of expected_event
  complete-Served q e e1 none same quiet log next =
      let found = classify (answer_of q) in
      let ev = event_of q.ctx e.seq found.0 found.1 0 (latency_at c e.seq q.ctx) 0 q.clock in
      record {
        ev = ev;
        logged = ap (λ s. sink.emit s ev) log;
        expected = rw same refl;
        quiet = record { seed = quiet.seed; found = quiet.found };
        next = next;
      }
  complete-Served q e e1 (some n) same quiet log next =
      let found = classify {T = T} (err (errno n)) in
      let ev = event_of q.ctx e.seq found.0 found.1 0 (latency_at c e.seq q.ctx) 0 q.clock in
      record {
        ev = ev;
        logged = ap (λ s. sink.emit s ev) log;
        expected = rw same refl;
        quiet = record { seed = quiet.seed; found = quiet.found };
        next = next;
      }

  module _ (q : Request W T) (e : SimEngine F H S) (quiet : IsQuietEngine c e) where
    abbrev here : OpResources F
    here = (quiet.found q.ctx.op).0

    ready : IsQuiet (policy_of c q.ctx.op) here
    ready = (quiet.found q.ctx.op).2

    selected :
        Selection (policy_of c q.ctx.op) q.ctx (select_tier here q.ctx.op q.ctx.requested_len)
    selected = select_tier-Selection (policy_of c q.ctx.op) here q.ctx ready (tame q.ctx.op)

    fault-at : fault_of e q.ctx here ≡ fault_at c e.seq q.ctx
    unfolding fault_of
    fault-at =
        ap (λ rules. sample_fault rules (sample_key e.seed q.ctx e.seq)) selected.rules
        ∙ ap
            (λ seed.
              sample_fault (tier_of (policy_of c q.ctx.op) q.ctx).1 (sample_key seed q.ctx e.seq))
            quiet.seed

    latency-at : latency_of e q.ctx here ≡ latency_at c e.seq q.ctx
    unfolding latency_of
    latency-at =
        ap (λ p. sample_latency_us p (sample_key e.seed q.ctx e.seq)) selected.profile
        ∙ ap
            (λ seed.
              sample_latency_us (tier_of (policy_of c q.ctx.op) q.ctx).0
                (sample_key seed q.ctx e.seq))
            quiet.seed

    no_delay : delay_of q.ctx q.clock here ≡ 0
    unfolding delay_of
    no_delay =
        ap (λ (x : ℕ × Option (BandwidthLimiter F)). x.0)
          (bandwidth_step-none q.ctx _ q.clock.reserved selected.no_limiter)

    fits : from_micros (latency_of e q.ctx here) + delay_of q.ctx q.clock here ≤ duration_max
    unfolding latency_of
    fits = omega (
      arith,
      no_delay,
      selected.max_fits,
      sample_latency_us-le (select_tier here q.ctx.op q.ctx.requested_len).0
          (sample_key e.seed q.ctx e.seq),
    )

    charged : Option (BandwidthLimiter F)
    charged =
        (bandwidth_step q.ctx (select_tier here q.ctx.op q.ctx.requested_len).2 q.clock.reserved).1

    abbrev kept : OpResources F
    kept = put_bandwidth (is_large here q.ctx.op q.ctx.requested_len) charged here

    abbrev changed : OpResources F
    changed = record kept {
      limiter = record kept.limiter { state = release (admit here.limiter.state) };
    }

    changed-IsQuiet : IsQuiet (policy_of c q.ctx.op) changed
    unfolding charged
    changed-IsQuiet =
        put-IsQuiet (policy_of c q.ctx.op) here (is_large here q.ctx.op q.ctx.requested_len) charged
          (release (admit here.limiter.state)) ready
          (ap (λ (x : ℕ × Option (BandwidthLimiter F)). x.1)
            (bandwidth_step-none q.ctx _ q.clock.reserved selected.no_limiter))
          (release-admit here.limiter.state ready.idle)

    put_found :
        (op : FsOp)
        → get_resources op (put_resources q.ctx.op changed e.resources)
          ≡ (if op_eq q.ctx.op op then some changed else get_resources op e.resources)
    put_found op = get-put q.ctx.op op here changed e.resources (quiet.found q.ctx.op).1

    after_call-IsQuietEngine :
        IsQuietEngine c (after_call q.ctx q.clock here (admit here.limiter.state) e)
    unfolding after_call set_limiter charged
    after_call-IsQuietEngine = record {
      seed = quiet.seed;
      found = λ op. elim (Bool-cases (op_eq q.ctx.op op)) [
        | inl same ↦ (
          changed,
          put_found op ∙ rw same refl,
          subst (λ o. IsQuiet (policy_of c o) changed) ((op_eq_iff q.ctx.op op).0 same)
              changed-IsQuiet,
        )
        | inr other ↦ let (r, was, q') = quiet.found op in (r, put_found op ∙ rw other was, q')
      ];
    }

    complete-at :
        (fault : Option ℕ) (latency_us delay : ℕ) (e1 : SimEngine F H S)
        → fault ≡ fault_at c e.seq q.ctx
        → latency_us ≡ latency_at c e.seq q.ctx
        → delay ≡ 0
        → complete q.ctx e.seq fault 0 latency_us delay q.clock q.body e1 q.world
          ≡ complete q.ctx e.seq
              (fault_at c e.seq q.ctx)
              0
              (latency_at c e.seq q.ctx)
              0
              q.clock
              q.body
              e1
              q.world
    complete-at fault latency_us delay e1 f l d = rw (f, l, d) refl

    pub call-Served : Served q e (after (run_op q.ctx q.clock q.body e q.world))
    unfolding after_call set_limiter
    call-Served =
        let got =
          acquire_free here.limiter q.clock.wakes
            (omega (arith, ready.idle, ready.cap, (tame q.ctx.op).slot)) in
        let left = after_call q.ctx q.clock here (admit here.limiter.state) e in
        let ran =
          run_op_fits q.ctx q.clock q.body here e q.world 0 (admit here.limiter.state)
            (quiet.found q.ctx.op).1 got fits in
        let at =
          complete-at (fault_of e q.ctx here) (latency_of e q.ctx here)
            (delay_of q.ctx q.clock here) left fault-at latency-at no_delay in
        subst (λ run. Served q e (after run)) (sym (ran ∙ at))
          (complete-Served q e left (fault_at c e.seq q.ctx) refl after_call-IsQuietEngine refl
            refl)
