-- ===== src/Tests/Engine.antt =====
-- Examples for the engine: a read that draws a fault, and a write that runs.
use fusecraft_rs.Base.{
  ℕ, ◌+◌, ◌≤◌, ◌<◌, ◌≡◌, ◌↔◌, refl, inr, List, [], ◌∷◌, none, some, Result, ok, err, arith,
}
use fusecraft_rs.Base.Word.{duration_max, from_micros}
use fusecraft_rs.Op as Op
use fusecraft_rs.Op.{is_data}
use fusecraft_rs.Error.{FsError, errno}
use fusecraft_rs.Float.Fixed.{Fixed, plus, fixed, fixed_rng, fixed-IsOrdered, fixed-IsUniform}
use fusecraft_rs.Limiter.Concurrency.{LimiterState, granted, acquire}
use fusecraft_rs.Limiter.Bandwidth.{BandwidthLimiter, reserve}
use fusecraft_rs.Sampler.Latency.Laws.{sample_latency_us-le}
use fusecraft_rs.Events.{Event}
use fusecraft_rs.Sampler.Fault.Laws.{sample_fault_certain, sample_fault_idle}
use fusecraft_rs.Engine.{
  OpContext, OpResources, SimEngine, Clock, returned, panicked, get_resources, large_tier,
  select_tier,
}
use fusecraft_rs.Engine.Lifecycle.{sample_key, bandwidth_step, run_op}
use fusecraft_rs.Engine.Laws.{IsReported, run_op-IsReported}
use fusecraft_rs.Engine.Slot.{
  fault_of, latency_of, delay_of, run_op_no_fault, run_op_fault, run_op_panics_iff, IsReturnedSlot,
  run_op-IsReturnedSlot,
}
use fusecraft_rs.Tests.Samples.{
  linux, value_list, event_list, failing_reads, healthy_writes, never_enoent, always_eio,
  flat_latency,
}

abbrev pub bucket : BandwidthLimiter Fixed
bucket = record {
  rate = plus 4000;
  capacity = plus 8000;
  state = record { tokens = plus 8000; last = 0; total_bytes_reserved = 0; total_throttled = 0 };
}

abbrev pub idle : LimiterState
idle = record {
  inflight = 0;
  queued = 0;
  total_acquired = 0;
  total_rejected = 0;
  total_queue_wait_ns = 0;
}

abbrev pub one_in : LimiterState
one_in = record idle { inflight = 1; total_acquired = 1 }

abbrev pub read_resources : OpResources Fixed
read_resources = record {
  policy = failing_reads;
  limiter = record { state = idle; cap = 1; queue_cap = 2 };
  bandwidth = some bucket;
  large_bandwidth = none;
}

abbrev pub write_resources : OpResources Fixed
write_resources = record read_resources { policy = healthy_writes }

abbrev engine : SimEngine Fixed (List ℕ) (List Event)
engine = record {
  seed = 42;
  resources = (Op.read, read_resources) ∷ (Op.write, write_resources) ∷ [];
  seq = 0;
  events = [];
  metrics = record { per_op = λ o. none };
}

abbrev pub clock : Clock
clock = record { started = 0; wakes = []; reserved = 1000; finished = 500000; unix_nanos = 77 }

abbrev read_call : OpContext
read_call = record { op = Op.read; ino = 100; offset = 0; len = 4; requested_len = 4 }

abbrev write_call : OpContext
write_call = record { op = Op.write; ino = 100; offset = 0; len = 4; requested_len = 4 }

-- The body counts its runs.
abbrev body : ℕ → Result FsError ℕ × ℕ
body n = (ok 9, n + 1)

read_found : get_resources Op.read engine.resources ≡ some read_resources
unfolding get_resources Op.op_eq Op.discriminant
read_found = refl

write_found : get_resources Op.write engine.resources ≡ some write_resources
unfolding get_resources Op.op_eq Op.discriminant
write_found = refl

pub free_granted : acquire read_resources.limiter [] ≡ granted 0 one_in
unfolding acquire
free_granted = refl

run_op-IsReported_example : IsReported write_call engine 0 (run_op write_call clock body engine 0)
run_op-IsReported_example = run_op-IsReported write_call clock body engine 0

run_op-IsReturnedSlot_example :
    IsReturnedSlot read_call clock body read_resources engine 0 0 one_in read_found free_granted
      (run_op read_call clock body engine 0)
run_op-IsReturnedSlot_example =
    run_op-IsReturnedSlot read_call clock body read_resources engine 0 0 one_in read_found
      free_granted

read_faults : fault_of engine read_call read_resources ≡ some 5
unfolding fault_of select_tier large_tier is_data fixed sample_key
read_faults =
    sample_fault_certain fixed-IsOrdered fixed-IsUniform (never_enoent ∷ []) [] always_eio
      (sample_key 42 read_call 0) (inr refl, tt) refl refl

write_no_fault : fault_of engine write_call write_resources ≡ none
unfolding fault_of select_tier large_tier is_data
write_no_fault =
    sample_fault_idle fixed-IsOrdered fixed-IsUniform [] (sample_key 42 write_call 0) tt

read_no_delay : delay_of read_call clock read_resources ≡ 0
unfolding delay_of bandwidth_step select_tier large_tier is_data reserve fixed
read_no_delay = refl

write_no_delay : delay_of write_call clock write_resources ≡ 0
unfolding delay_of bandwidth_step select_tier large_tier is_data reserve fixed
write_no_delay = refl

read_fits :
    from_micros (latency_of engine read_call read_resources)
      + delay_of read_call clock read_resources
    ≤ duration_max
unfolding latency_of select_tier large_tier is_data
read_fits =
    omega (arith, read_no_delay, sample_latency_us-le flat_latency (sample_key 42 read_call 0))

write_fits :
    from_micros (latency_of engine write_call write_resources)
      + delay_of write_call clock write_resources
    ≤ duration_max
unfolding latency_of select_tier large_tier is_data
write_fits =
    omega (arith, write_no_delay, sample_latency_us-le flat_latency (sample_key 42 write_call 0))

run_op_fault_example :
    (e' : SimEngine Fixed (List ℕ) (List Event)) × (run_op read_call clock body engine 0
      ≡ returned (err (errno 5)) e' 0)
run_op_fault_example =
    run_op_fault read_call clock body read_resources engine 0 0 one_in read_found free_granted 5
      read_fits read_faults

run_op_no_fault_example :
    (e' : SimEngine Fixed (List ℕ) (List Event)) × (run_op write_call clock body engine 0
      ≡ returned (ok 9) e' 1)
run_op_no_fault_example =
    run_op_no_fault write_call clock body write_resources engine 0 0 one_in write_found free_granted
      write_fits write_no_fault

run_op_panics_iff_example :
    ((e' : SimEngine Fixed (List ℕ) (List Event)) × (w' : ℕ) × (run_op read_call clock body engine 0
        ≡ panicked e' w'))
    ↔ (duration_max
        < from_micros (latency_of engine read_call read_resources)
          + delay_of read_call clock read_resources)
run_op_panics_iff_example =
    run_op_panics_iff read_call clock body read_resources engine 0 0 one_in read_found free_granted
