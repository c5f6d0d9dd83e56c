-- ===== src/Tests/Samples.antt =====
-- Shared sample values: the errno numbers of Linux, a key, a configuration, a recorder.
use fusecraft_rs.Base.{ℕ, List, [], ◌∷◌, none, some}
use fusecraft_rs.Op as Op
use fusecraft_rs.Error.{Libc}
use fusecraft_rs.Float.Fixed.{Fixed, plus}
use fusecraft_rs.Config.{Config, FaultRule, LatencyProfile, OpPolicy, default_mount, default_files}
use fusecraft_rs.Sampler.Key.{SampleKey}
use fusecraft_rs.Events.{Event, EventSink}
use fusecraft_rs.Metrics.{Histogram}

instance abbrev pub linux : Libc
linux = record {
  eio = 5;
  enoent = 2;
  estale = 116;
  enospc = 28;
  eagain = 11;
  eintr = 4;
  einval = 22;
  enotdir = 20;
}

-- A histogram that holds its values, and a sink that holds its events, the newest first.
instance abbrev pub value_list : Histogram (List ℕ)
value_list = record { empty = []; record_value = λ h v. v ∷ h; value_at = λ h p. p }

instance abbrev pub event_list : EventSink (List Event)
event_list = record { emit = λ log event. event ∷ log }

abbrev pub read_key : SampleKey
read_key = record { seed = 42; op = Op.read; ino = 100; offset = 4096; len = 512; seq = 7 }

abbrev pub flat_latency : LatencyProfile Fixed
flat_latency = record {
  base_us = 50;
  lognormal_median_us = plus 100000;
  lognormal_sigma = plus 0;
  pareto_weight = plus 0;
  pareto_xm_us = plus 0;
  pareto_alpha = plus 0;
  max_us = 120;
}

abbrev pub always_eio : FaultRule Fixed
always_eio = record { op = Op.read; errno = 5; rate = plus 1000 }

abbrev pub never_enoent : FaultRule Fixed
never_enoent = record { op = Op.read; errno = 2; rate = plus 0 }

abbrev pub for_write : FaultRule Fixed
for_write = record { op = Op.write; errno = 28; rate = plus 1000 }

-- Reads fail, and wait 120 microseconds.
abbrev pub failing_reads : OpPolicy Fixed
failing_reads = record {
  concurrency_cap = 1;
  queue_cap = 2;
  latency = flat_latency;
  bandwidth = some (record { bytes_per_sec = plus 4000; burst_bytes = 8 });
  faults = never_enoent ∷ always_eio ∷ [];
  size_tier = none;
}

abbrev pub healthy_writes : OpPolicy Fixed
healthy_writes = record failing_reads { faults = [] }

abbrev pub config : Config Fixed
config = record {
  seed = 42;
  mount = default_mount;
  files = default_files;
  ops = (Op.read, failing_reads) ∷ (Op.write, healthy_writes) ∷ [];
  metrics = record { jsonl_path = none };
}
