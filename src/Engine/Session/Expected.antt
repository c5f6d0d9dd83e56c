-- ===== src/Engine/Session/Expected.antt =====
-- The log of a session as the configuration, the calls and the results of their closures determine
-- it, without the readings of the clocks.
use fusecraft_rs.Base.{ℕ, suc, List, [], ◌∷◌, Option, none, some, Result, err}
use fusecraft_rs.Error.{Libc, FsError, errno}
use fusecraft_rs.Float.{Float, Rng}
use fusecraft_rs.Config.{Config}
use fusecraft_rs.Sampler.Fault.{sample_fault}
use fusecraft_rs.Sampler.Latency.{sample_latency_us}
use fusecraft_rs.Events.{Event}
use fusecraft_rs.Engine.{OpContext, Clock}
use fusecraft_rs.Engine.Lifecycle.{sample_key, event_of, classify}
use fusecraft_rs.Engine.Session.{Request, answer_of}
use fusecraft_rs.Engine.Session.Quiet.{policy_of, tier_of}

-- An event without what it reads of the clocks: when the call ended, and how long it took.
abbrev pub timeless : Event → Event
timeless ev = record ev { ts_unix_nanos = 0; total_duration_us = 0 }

-- The readings of a clock that stands still.
abbrev pub no_time : Clock
no_time = record { started = 0; wakes = []; reserved = 0; finished = 0; unix_nanos = 0 }

-- What a session is asked to do: contexts, and what the closures return.
abbrev pub calls_of : {W T : Type 0} → List (Request W T) → List (OpContext × Result FsError T)
calls_of [] = []
calls_of (r ∷ rs) = (r.ctx, answer_of r) ∷ calls_of rs

-- The result of a call in place of which a fault may stand.
abbrev pub result_of : {T : Type 0} → Option ℕ → Result FsError T → Result FsError T
result_of none answer = answer
result_of (some e) answer = err (errno e)

-- What a call is sampled, as the configuration determines it.
abbrev pub fault_at :
    {F : Type 0} ⦃fl : Float F⦄ ⦃rng : Rng F⦄ → Config F → ℕ → OpContext → Option ℕ
fault_at c seq ctx = sample_fault (tier_of (policy_of c ctx.op) ctx).1 (sample_key c.seed ctx seq)

abbrev pub latency_at : {F : Type 0} ⦃fl : Float F⦄ ⦃rng : Rng F⦄ → Config F → ℕ → OpContext → ℕ
latency_at c seq ctx =
    sample_latency_us (tier_of (policy_of c ctx.op) ctx).0 (sample_key c.seed ctx seq)

module _ {F T : Type 0} ⦃fl : Float F⦄ ⦃rng : Rng F⦄ ⦃libc : Libc⦄ where
  -- The event of call number `seq`, as the configuration and the call determine it.
  unfoldable pub expected_event : Config F → ℕ → OpContext × Result FsError T → Event
  expected_event c seq (ctx, answer) =
      let (outcome, code) = classify (result_of (fault_at c seq ctx) answer) in
      event_of ctx seq outcome code 0 (latency_at c seq ctx) 0 no_time

  unfoldable pub expected_log : Config F → ℕ → List (OpContext × Result FsError T) → List Event
  expected_log c seq [] = []
  expected_log c seq (call ∷ calls) = expected_event c seq call ∷ expected_log c (suc seq) calls
