-- ===== src/Tests/Interleaved.antt =====
-- What is known of the interleaving of two writes that Threads traces.
use fusecraft_rs.Base.{
  All, ℕ, ◌<◌, ◌≤◌, ◌≡◌, refl, Bool, ltb, List, [], length, count, some, ok, arith,
}
use fusecraft_rs.Op as Op
use fusecraft_rs.Op.{FsOp, all}
use fusecraft_rs.Base.Word.{u64_mod}
use fusecraft_rs.Float.Fixed.{Fixed, fixed, fixed_rng, fixed-IsOrdered}
use fusecraft_rs.Config.{get_policy, default_policy, default_files}
use fusecraft_rs.Config.Validate as Validate
use fusecraft_rs.Config.Validate.{validate}
use fusecraft_rs.Config.Valid.{validate-IsValid}
use fusecraft_rs.Events.{Event}
use fusecraft_rs.Metrics.{summary}
use fusecraft_rs.Metrics.Laws.{lines_of}
use fusecraft_rs.Engine.{OpResources, get_resources, new}
use fusecraft_rs.Engine.Lifecycle.{run_op}
use fusecraft_rs.Engine.Session.Log.{emit_all, calls_before}
use fusecraft_rs.Engine.Threads.{fresh, asleep, slotted, one_if}
use fusecraft_rs.Engine.Threads.Invariant.{has_seq}
use fusecraft_rs.Engine.Threads.Account.{IsAccounted, Reach-IsAccounted, finished_log}
use fusecraft_rs.Engine.Threads.Limiters.{cap_of, queue_cap_of, IsLimiterRun, Reach-IsLimiterRun}
use fusecraft_rs.Engine.Threads.Promises.{slots_within_cap}
use fusecraft_rs.Engine.Threads.Alone.{alone, EndsAs}
use fusecraft_rs.Engine.Threads.Known.{IsDrawn}
use fusecraft_rs.Engine.Threads.Drawn.{log-IsDrawn}
use fusecraft_rs.Engine.Threads.Idle.{IsOver}
use fusecraft_rs.Engine.Threads.Schedule.{Schedule}
use fusecraft_rs.Engine.Threads.Service.{every_one_ends}
use fusecraft_rs.Engine.Threads.Single.{run_op-Steps}
use fusecraft_rs.Tests.Samples.{linux, value_list, event_list, config}
use fusecraft_rs.Tests.Engine.{clock}
use fusecraft_rs.Tests.Session.{counting, no_events}
use fusecraft_rs.Tests.Threads.{
  Calls, write_four, job, jobs, at, a0, a4, a15, result_1, result_2, a4-IsReached, both_done,
}

abbrev one_queued_state : Calls
one_queued_state = at a4 (slotted job 0 0) (asleep job 1)

abbrev end_state : Calls
end_state = at a15 result_1 result_2

Reach-IsAccounted_example : IsAccounted config no_events 0 0 jobs one_queued_state
Reach-IsAccounted_example =
    Reach-IsAccounted config no_events 0 0 jobs one_queued_state (omega arith) a4-IsReached

finished_log_example :
    (log : List Event) × (recorded : List Event) × (a15.engine.events ≡ emit_all no_events log)
    × (length log ≡ 2)
    × ((n : ℕ) → count (has_seq n) log ≡ one_if (ltb n 2))
    × ((p : Event → Bool) → count p recorded ≡ count p log)
    × (summary a15.engine.metrics ≡ lines_of (List ℕ) (calls_before recorded []) all)
finished_log_example =
    finished_log config no_events 0 0 jobs end_state (omega arith) both_done
      ((_, refl), ((_, refl), tt))

Reach-IsLimiterRun_example :
    IsLimiterRun (cap_of config Op.write) (queue_cap_of config Op.write) 2 Op.write one_queued_state
Reach-IsLimiterRun_example =
    Reach-IsLimiterRun config no_events 0 0 jobs Op.write one_queued_state a4-IsReached

slots_within_cap_example :
    (r : OpResources Fixed) × (get_resources Op.write a4.engine.resources ≡ some r)
    × (r.limiter.state.inflight ≡ 1)
    × (1 ≤ 1)
    × (r.limiter.state.queued ≡ 1)
    × (1 ≤ 2)
unfolding get_policy Op.op_eq
slots_within_cap_example =
    slots_within_cap config no_events 0 0 jobs Op.write (omega arith) (omega arith) one_queued_state
      a4-IsReached

config_accepted : validate config ≡ ok tt
unfolding get_policy Op.op_eq Validate.validate default_files Validate.validate_ops
    Validate.validate_op_policy Validate.validate_latency fixed Validate.validate_bandwidth
    Validate.validate_faults Validate.faults_from Validate.validate_fault Validate.validate_tier
config_accepted = refl

run_op-Steps_example :
    EndsAs (alone a0 (fresh job)) a0 job 0 (run_op write_four clock counting a0.engine 0)
unfolding new
run_op-Steps_example = run_op-Steps job clock a0 refl

small_caps : (o : FsOp) → cap_of config o < u64_mod
unfolding get_policy default_policy
small_caps o = ground arith

small_queue_caps : (o : FsOp) → queue_cap_of config o < u64_mod
unfolding get_policy default_policy
small_queue_caps o = ground arith

every_one_ends_example :
    (z : Calls) × Schedule (λ s p. (clock, 5)) one_queued_state z × All IsOver z.calls
every_one_ends_example =
    every_one_ends config no_events 0 0 jobs small_caps small_queue_caps
      ((validate-IsValid fixed-IsOrdered config).0 config_accepted) (λ s p. (clock, 5))
      one_queued_state a4-IsReached

log-IsDrawn_example : All (IsDrawn config jobs) a15.log
log-IsDrawn_example = log-IsDrawn config jobs no_events 0 0 end_state both_done
