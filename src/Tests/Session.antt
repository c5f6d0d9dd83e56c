-- ===== src/Tests/Session.antt =====
-- Examples for sessions: two calls of a read that a fault answers, and calls with and without a
-- bandwidth limit.
use fusecraft_rs.Base.{ℕ, ◌+◌, ◌<◌, ◌≡◌, refl, List, [], ◌∷◌, map, none, some, Result, ok, arith}
use fusecraft_rs.Base.Word.{duration_max}
use fusecraft_rs.Op as Op
use fusecraft_rs.Op.{is_data, all}
use fusecraft_rs.Error.{FsError}
use fusecraft_rs.Float.Fixed.{Fixed, plus, minus, fixed, fixed_rng, fixed-IsConversion}
use fusecraft_rs.Config.{Config, OpPolicy}
use fusecraft_rs.Sampler.Latency.Laws.{sample_latency_us_constant}
use fusecraft_rs.Limiter.Bandwidth.{BandwidthLimiter, reserve, refill, charge}
use fusecraft_rs.Events.{Event}
use fusecraft_rs.Engine.{
  OpContext, OpResources, SimEngine, Clock, returned, panicked, get_resources, new, large_tier,
  select_tier,
}
use fusecraft_rs.Engine.Lifecycle.{sample_key, run_op}
use fusecraft_rs.Engine.Slot.{latency_of}
use fusecraft_rs.Engine.Totality.{run_op_returns, run_op_saturated}
use fusecraft_rs.Engine.Session.{Request, run_all}
use fusecraft_rs.Engine.Session.Log.{emit_all}
use fusecraft_rs.Engine.Session.Quiet.{IsTame}
use fusecraft_rs.Engine.Session.Expected.{timeless, calls_of, expected_log}
use fusecraft_rs.Engine.Session.Replay.{session-expected_log, replay}
use fusecraft_rs.Tests.Samples.{linux, value_list, event_list, config, failing_reads, flat_latency}
use fusecraft_rs.Tests.Engine.{read_resources, clock, free_granted}

abbrev pub read_four : OpContext
read_four = record { op = Op.read; ino = 100; offset = 0; len = 4; requested_len = 4 }

abbrev pub counting : ℕ → Result FsError ℕ × ℕ
counting n = (ok 9, n + 1)

abbrev pub later : Clock
later = record { started = 5; wakes = []; reserved = 8; finished = 900000; unix_nanos = 99 }

abbrev pub two_calls : List (Request ℕ ℕ)
two_calls =
    record { ctx = read_four; clock = clock; body = counting; world = 0 }
    ∷ record { ctx = read_four; clock = later; body = counting; world = 7 }
    ∷ []

-- The same calls at other times, in another world.
abbrev replayed_calls : List (Request ℕ ℕ)
replayed_calls =
    record { ctx = read_four; clock = later; body = counting; world = 1 }
    ∷ record { ctx = read_four; clock = later; body = counting; world = 2 }
    ∷ []

abbrev pub no_events : List Event
no_events = []

abbrev tame_reads : OpPolicy Fixed
tame_reads = record failing_reads { bandwidth = none }

abbrev tame : Config Fixed
tame = record config { ops = (Op.read, tame_reads) ∷ [] }

tame_reads-IsTame : IsTame tame_reads
tame_reads-IsTame = record {
  slot = omega arith;
  unlimited = refl;
  max_fits = omega arith;
  tier = tt;
}

session-expected_log_example :
    (evs : List Event) × ((run_all two_calls (new {H = List ℕ} tame no_events 0)).events
      ≡ emit_all no_events evs)
    × (map timeless evs ≡ expected_log tame 0 (calls_of two_calls))
session-expected_log_example =
    session-expected_log (List ℕ) tame (tame_reads-IsTame, tt) two_calls no_events 0 (omega arith)

replay_example :
    (evs evs' : List Event) × ((run_all two_calls (new {H = List ℕ} tame no_events 0)).events
      ≡ emit_all no_events evs)
    × ((run_all replayed_calls (new {H = List ℕ} tame no_events 50)).events
        ≡ emit_all no_events evs')
    × (map timeless evs ≡ map timeless evs')
replay_example =
    replay (List ℕ) tame (tame_reads-IsTame, tt) two_calls replayed_calls no_events 0 50 refl
      (omega arith) (omega arith)

abbrev tame_resources : OpResources Fixed
tame_resources = record read_resources { policy = tame_reads; bandwidth = none }

-- A bucket at one thousandth of a byte per second that owes 2 * 10^16 bytes.
abbrev drained : BandwidthLimiter Fixed
drained = record {
  rate = plus 1;
  capacity = plus 0;
  state = record {
    tokens = minus 20000000000000000000;
    last = 0;
    total_bytes_reserved = 0;
    total_throttled = 0;
  };
}

abbrev drained_resources : OpResources Fixed
drained_resources = record read_resources { bandwidth = some drained }

abbrev engine_with : OpResources Fixed → SimEngine Fixed (List ℕ) (List Event)
engine_with r = record {
  seed = 42;
  resources = (Op.read, r) ∷ [];
  seq = 0;
  events = [];
  metrics = record { per_op = λ o. none };
}

found_with : (r : OpResources Fixed) → get_resources Op.read (engine_with r).resources ≡ some r
unfolding get_resources Op.op_eq Op.discriminant
found_with r = refl

run_op_returns_example :
    (result : Result FsError ℕ) × (e' : SimEngine Fixed (List ℕ) (List Event)) × (w' : ℕ) × (run_op
        read_four clock counting
        (engine_with tame_resources)
        0
      ≡ returned result e' w')
unfolding select_tier large_tier is_data
run_op_returns_example =
    run_op_returns read_four clock counting tame_resources (engine_with tame_resources) 0 0 _
      (found_with tame_resources) free_granted refl (omega arith)

drained_saturated : (reserve drained 4 clock.reserved).0 ≡ duration_max
unfolding reserve refill charge fixed
drained_saturated = refl

some_latency : 0 < latency_of (engine_with drained_resources) read_four drained_resources
unfolding latency_of select_tier large_tier is_data fixed
some_latency = omega (
  arith,
  sample_latency_us_constant fixed-IsConversion flat_latency 100 (sample_key 42 read_four 0)
      (record { no_tail = refl; degenerate = refl; median_us = refl }) (omega arith),
)

run_op_saturated_example :
    (e' : SimEngine Fixed (List ℕ) (List Event)) × (run_op read_four clock counting
        (engine_with drained_resources)
        0
      ≡ panicked e' 0)
    × (e'.events ≡ [])
    × (e'.metrics ≡ (engine_with drained_resources).metrics)
unfolding select_tier large_tier is_data
run_op_saturated_example =
    run_op_saturated read_four clock counting drained_resources (engine_with drained_resources) 0 0
      _ (found_with drained_resources) free_granted drained refl refl drained_saturated some_latency
