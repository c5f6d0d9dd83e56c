-- ===== src/Lib.antt =====
-- fusecraft: a synthetic filesystem that injects latency, faults, bandwidth limits and queueing.
-- This library models the simulation core, crates/fusecraft-core/src, and the FUSE handlers over it,
-- crates/fusecraft-fuser/src, and the commands, crates/fusecraft-cli/src, and proves what its parts
-- promise.
--
-- A filesystem call becomes an `OpContext` and runs through `SimEngine::run_op` (engine/mod.rs). The
-- engine takes a slot of the operation's `BlockingLimiter` (limiter/concurrency.rs), picks the tier
-- of the policy, samples a fault and a latency (sampler/) from a key that holds the seed, the call
-- and its sequence number, asks the `BandwidthLimiter` (limiter/bandwidth.rs) for a delay, sleeps,
-- runs the body unless a fault takes its place, emits an `Event` (events/mod.rs), records the
-- duration (metrics/mod.rs) and gives the slot back. The bodies read the namespace (namespace/) and
-- the synthetic content (content/). A `Config` (config.rs), validated once, fixes the policies.
--
-- - Base: lists, options, results, Boolean tests, 64-bit words and `Duration`, exclusive or.
-- - Op, Error: op.rs, error.rs. `FsOp::ALL` is `all`, `as_str` and `as_errno` keep their names.
-- - Float: `f64` and the random draws, as interfaces with laws that theorems name; Float/Fixed is a
--   concrete instance in which the laws hold.
-- - Config: config.rs; Config/Validate has `Config::validate` and its helpers, Config/Valid says
--   what a valid configuration is. Config/Table is the table that a file holds: what the serde
--   attributes make of it, and in Write the table that a configuration is written to.
-- - Sampler: sampler/key.rs, sampler/fault.rs and sampler/latency.rs, one file each.
-- - Limiter/Concurrency: each critical section of `acquire`, `acquire_timeout` and `release` is a
--   function on `LimiterState`; Threads interleaves any number of threads by a step relation in
--   which a thread may sleep, be notified, wake by itself, time out, or end in the panic of
--   `start + timeout`, after which `queued` still counts it.
-- - Limiter/Bandwidth: `reserve`, `stats` and the refill, with the clock as an argument.
-- - Namespace: `lookup`, `attr` and `readdir` of namespace/flat.rs; Listing says what a directory
--   holds, which `readdir` and `lookup` are compared with.
-- - Content, Events, Metrics: content/deterministic.rs, events/mod.rs, metrics/mod.rs.
-- - Engine: `OpContext`, `SimEngine::new` and `select_tier`; Lifecycle has `run_op`, cut at its
--   numbered steps. Slot and Totality say how a call with a slot ends. Session is a sequence of
--   calls: its log, and the log that a configuration without bandwidth limits determines. Threads
--   interleaves the calls of any number of threads at the points where they touch what they share:
--   the sequence counter, the limiters, the world of the bodies, the sink and the recorder. Account
--   counts numbers, events and records; Seen, Drops and Limiters look at one operation's limiter, by
--   the step relation of Limiter/Concurrency/Threads, and Promises says what it grants to the calls;
--   Schedule, Progress, Idle and Service find the steps that bring all calls to their ends;
--   Policies, Known and Drawn follow what each call samples into the log;
--   Table, Alone and Single take a `run_op` apart into the steps.
-- - Fuse: the handlers of `FaultFs` (lib.rs), attr_from_spec, and in Options the mount options
--   (opts.rs) and in Mount the entry points (mount.rs).
-- - Cli: the commands of the program. Commands has them, as functions from the answers of a `Host`
--   to the effects and the result; Stages, Pairing, Loading and Report are about their effects.
-- - Tests: concrete inputs and an example for each theorem that has conditions.
--
-- Numbers are natural numbers; a `u64` that the code lets wrap, saturate or cast is written with its
-- `% 2 ^ 64`, minimum or bound, in the release profile, where overflow does not panic. A `Duration`
-- is its nanoseconds, and `+` on it panics above `duration_max`. No definition runs on fuel: the
-- loops of the source go over lists, and a wait loop goes over the list of the states that its
-- wake-ups find, and is `waiting` where the list ends first. The clocks, the states at a wake-up and
-- the sink's and the body's worlds are arguments. In a session calls follow one another; calls of
-- other threads appear in the states at the wake-ups of a call, and in the two Threads, of the engine
-- and of the limiter alone. There the body of a call is one step on a world that the calls share; it
-- does not panic.
--
-- Not modelled: the TOML grammar and the parsing of argv; the texts of error messages beyond the
-- format string and its path, and of log lines; the random generator, the histogram, the JSON text,
-- the file that the log is written to, the sum of an `Instant` and a `Duration`, the fuser crate's
-- error numbers and the kernel's side of a mount, which are parameters.
pub mod Base
pub mod Op
pub mod Error
pub mod Float
pub mod Config
pub mod Sampler
pub mod Limiter
pub mod Namespace
pub mod Content
pub mod Events
pub mod Metrics
pub mod Engine
pub mod Tests
pub mod Fuse
pub mod Cli
