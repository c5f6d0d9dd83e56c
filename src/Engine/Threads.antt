-- ===== src/Engine/Threads.antt =====
-- crates/fusecraft-core/src/engine/mod.rs: calls of `run_op` by any number of threads. A step is the
-- piece of one call between two points at which it touches what the calls share: the sequence
-- counter, the limiters of its operation, the closure's world, the sink and the recorder. Between two
-- steps of a call any steps of others may come. The limiter's part is that of
-- Limiter/Concurrency/Threads: a waiting call sleeps, and is woken when a guard drops, or by itself.
pub mod Invariant
pub mod Account
pub mod Seen
pub mod Drops
pub mod Limiters
pub mod Promises
pub mod Table
pub mod Alone
pub mod Single
pub mod Schedule
pub mod Progress
pub mod Idle
pub mod Service
pub mod Policies
pub mod Known
pub mod Drawn
use fusecraft_rs.Base.{
  ℕ, ◌+◌, ◌≤◌, ◌<◌, ◌≡◌, Bool, true, false, if◌then◌else◌, List, [], ◌∷◌, ◌++◌, map, Option, none,
  some, Result, ok, err,
}
use fusecraft_rs.Base.Word.{wrapping_add, checked_add, from_micros, as_micros}
use fusecraft_rs.Op.{FsOp, op_eq}
use fusecraft_rs.Error.{Libc, FsError, errno, as_errno}
use fusecraft_rs.Float.{Float, Rng}
use fusecraft_rs.Config.{Config}
use fusecraft_rs.Limiter.Concurrency.{
  LimiterState, admitted, rejected, queues, enter, take_slot, release,
}
use fusecraft_rs.Events.{Event, EventSink, error}
use fusecraft_rs.Metrics.{Histogram, record_op}
use fusecraft_rs.Engine.{
  OpContext, OpResources, SimEngine, Clock, get_resources, put_resources, put_bandwidth, is_large,
  select_tier, new,
}
use fusecraft_rs.Engine.Lifecycle.{
  event_of, is_error, classify, execute, set_limiter, bandwidth_step,
}
use fusecraft_rs.Engine.Slot.{fault_of, latency_of, delay_of}

-- What a thread calls `run_op` with.
pub record Job (W T : Type 0) : Type 0 where
  pub ctx : OpContext
  pub body : W → Result FsError T × W

-- How far a call has come: it has not begun; has its number; waits in the queue, asleep or woken;
-- has its slot; has slept for its delays; is about to emit its event; is about to record it; is about
-- to drop its guard; has returned; is unwinding from a panic; has ended in one. The flag tells
-- whether it holds a guard.
pub data Call (W T : Type 0) : Type 0 where
  fresh : Job W T → Call W T
  numbered asleep woken : Job W T → (seq : ℕ) → Call W T
  slotted : Job W T → (seq wait : ℕ) → Call W T
  delayed : Job W T → (seq : ℕ) → Option ℕ → (wait latency delay : ℕ) → Call W T
  reporting recording : (held : Bool) → Result FsError T → Event → Call W T
  closing : FsOp → Result FsError T → Call W T
  finished : Result FsError T → Call W T
  panicking : FsOp → (seq : ℕ) → Call W T
  lost : (seq : ℕ) → Call W T

-- The engine and the closures' world, with the events that were emitted and those that were recorded,
-- the oldest first.
pub record Shared (F H S W : Type 0) : Type 0 where
  pub engine : SimEngine F H S
  pub world : W
  pub log : List Event
  pub recorded : List Event

abbrev pub set_resources :
    {F H S W : Type 0} → Shared F H S W → List (FsOp × OpResources F) → W → Shared F H S W
set_resources a table w = record a { engine = record a.engine { resources = table }; world = w }

-- A new state of an operation's limiter, and a charge of its bandwidth limiter.
abbrev pub set_state :
    {F H S W : Type 0} → FsOp → OpResources F → LimiterState → Shared F H S W → Shared F H S W
set_state op r s a =
    set_resources a
      (put_resources op (record r { limiter = record r.limiter { state = s } }) a.engine.resources)
      a.world

abbrev pub charged : {F : Type 0} ⦃fl : Float F⦄ → OpContext → Clock → OpResources F → OpResources F
charged ctx t r =
    put_bandwidth (is_large r ctx.op ctx.requested_len)
      (bandwidth_step ctx (select_tier r ctx.op ctx.requested_len).2 t.reserved).1 r

abbrev pub set_charged :
    {F H S W : Type 0} ⦃fl : Float F⦄
    → OpContext
    → Clock
    → OpResources F
    → Shared F H S W
    → Shared F H S W
set_charged ctx t r a =
    set_resources a (put_resources ctx.op (charged ctx t r) a.engine.resources) a.world

-- The engine as the call with number `seq` samples it.
abbrev pub sampled : {F H S W : Type 0} → Shared F H S W → ℕ → SimEngine F H S
sampled a seq = record a.engine { seq = seq }

module _ {F H S W : Type 0} ⦃histogram : Histogram H⦄ ⦃sink : EventSink S⦄ where
  -- `fetch_add`
  unfoldable pub fetch_add : Shared F H S W → Shared F H S W
  fetch_add a = record a { engine = record a.engine { seq = wrapping_add a.engine.seq 1 } }

  -- `self.events.emit(..)`
  unfoldable pub emit_event : Event → Shared F H S W → Shared F H S W
  emit_event ev a = record a {
    engine = record a.engine { events = sink.emit a.engine.events ev };
    log = a.log ++ ev ∷ [];
  }

  -- `self.metrics.record(..)`
  unfoldable pub record_event : Event → Shared F H S W → Shared F H S W
  record_event ev a = record a {
    engine = record a.engine {
      metrics = record_op a.engine.metrics ev.op ev.total_duration_us (is_error ev.outcome);
    };
    recorded = a.recorded ++ ev ∷ [];
  }

-- Where a call stands after its record: its guard, if it has one, is still to be dropped.
abbrev pub after_record : {W T : Type 0} → Bool → FsOp → Result FsError T → Call W T
after_record true op result = closing op result
after_record false op result = finished result

abbrev pub again_errno : ⦃libc : Libc⦄ → ℕ
again_errno ⦃libc = libc⦄ = as_errno (errno libc.eagain)

-- The steps of a call between its number and its event.
pub data Inner {F H S W T : Type 0} ⦃fl : Float F⦄ ⦃rng : Rng F⦄ ⦃libc : Libc⦄ (a : Shared F H S W)
    : Call W T → Shared F H S W → Call W T → Type 0 where
  -- `expect`
  is_unregistered :
      (j : Job W T) (seq : ℕ)
      → get_resources j.ctx.op a.engine.resources ≡ none
      → Inner a (numbered j seq) a (lost seq)
  is_admitted :
      (j : Job W T) (seq : ℕ) (r : OpResources F) (s : LimiterState)
      → get_resources j.ctx.op a.engine.resources ≡ some r
      → enter r.limiter.cap r.limiter.queue_cap r.limiter.state ≡ (admitted, s)
      → Inner a (numbered j seq) (set_state j.ctx.op r s a) (slotted j seq 0)
  is_rejected :
      (j : Job W T) (seq : ℕ) (r : OpResources F) (s : LimiterState) (t : Clock)
      → get_resources j.ctx.op a.engine.resources ≡ some r
      → enter r.limiter.cap r.limiter.queue_cap r.limiter.state ≡ (rejected, s)
      → Inner a (numbered j seq) (set_state j.ctx.op r s a) (
          reporting false
            (err (errno again_errno))
            (event_of j.ctx seq error (some again_errno) 0 0 0 t))
  queues_up :
      (j : Job W T) (seq : ℕ) (r : OpResources F) (s : LimiterState)
      → get_resources j.ctx.op a.engine.resources ≡ some r
      → enter r.limiter.cap r.limiter.queue_cap r.limiter.state ≡ (queues, s)
      → Inner a (numbered j seq) (set_state j.ctx.op r s a) (asleep j seq)
  -- a wake-up that no notification caused
  stirs : (j : Job W T) (seq : ℕ) → Inner a (asleep j seq) a (woken j seq)
  takes_slot :
      (j : Job W T) (seq wait : ℕ) (r : OpResources F)
      → get_resources j.ctx.op a.engine.resources ≡ some r
      → r.limiter.state.inflight < r.limiter.cap
      → Inner a
          (woken j seq)
          (set_state j.ctx.op r (take_slot wait r.limiter.state) a)
          (slotted j seq wait)
  sleeps_on :
      (j : Job W T) (seq : ℕ) (r : OpResources F)
      → get_resources j.ctx.op a.engine.resources ≡ some r
      → r.limiter.cap ≤ r.limiter.state.inflight
      → Inner a (woken j seq) a (asleep j seq)
  -- sampling, the charge, and the sum of the delays
  overflows :
      (j : Job W T) (seq wait : ℕ) (r : OpResources F) (t : Clock)
      → get_resources j.ctx.op a.engine.resources ≡ some r
      → checked_add (from_micros (latency_of (sampled a seq) j.ctx r)) (delay_of j.ctx t r) ≡ none
      → Inner a (slotted j seq wait) (set_charged j.ctx t r a) (panicking j.ctx.op seq)
  delays :
      (j : Job W T) (seq wait sleep_for : ℕ) (r : OpResources F) (t : Clock)
      → get_resources j.ctx.op a.engine.resources ≡ some r
      → checked_add (from_micros (latency_of (sampled a seq) j.ctx r)) (delay_of j.ctx t r)
        ≡ some sleep_for
      → Inner a (slotted j seq wait) (set_charged j.ctx t r a) (
          delayed j seq
            (fault_of (sampled a seq) j.ctx r)
            wait
            (latency_of (sampled a seq) j.ctx r)
            (delay_of j.ctx t r))
  -- a fault, or the closure, gives the result
  executes :
      (j : Job W T) (seq : ℕ) (fault : Option ℕ) (wait latency delay : ℕ) (t : Clock)
      → Inner a
          (delayed j seq fault wait latency delay)
          (set_resources a a.engine.resources (execute fault j.body a.world).1)
          (reporting true (execute fault j.body a.world).0 (
            event_of j.ctx seq
              (classify (execute fault j.body a.world).0).0
              (classify (execute fault j.body a.world).0).1
              (as_micros wait)
              latency
              (as_micros delay)
              t))

module _ {F H S W T : Type 0} ⦃fl : Float F⦄ ⦃rng : Rng F⦄ ⦃libc : Libc⦄ ⦃histogram : Histogram H⦄
    ⦃sink : EventSink S⦄ where
  -- One call's own steps, but for the drop of its guard.
  pub data CallMove (a : Shared F H S W) : Call W T → Shared F H S W → Call W T → Type 0 where
    takes_number : (j : Job W T) → CallMove a (fresh j) (fetch_add a) (numbered j a.engine.seq)
    inner : {b : Shared F H S W} {p q : Call W T} → Inner a p b q → CallMove a p b q
    emits :
        (held : Bool) (result : Result FsError T) (ev : Event)
        → CallMove a (reporting held result ev) (emit_event ev a) (recording held result ev)
    records :
        (held : Bool) (result : Result FsError T) (ev : Event)
        → CallMove a (recording held result ev) (record_event ev a) (after_record held ev.op result)

-- A guard of the operation is dropped, at the end of a call or in a panic.
pub data Drop {W T : Type 0} (op : FsOp) : Call W T → Call W T → Type 0 where
  closes : (result : Result FsError T) → Drop op (closing op result) (finished result)
  unwinds : (seq : ℕ) → Drop op (panicking op seq) (lost seq)

pub record System (F H S W T : Type 0) : Type 0 where
  pub shared : Shared F H S W
  pub calls : List (Call W T)

-- The sum of a weight over the calls.
abbrev pub total : {W T : Type 0} → (Call W T → ℕ) → List (Call W T) → ℕ
total w [] = 0
total w (p ∷ ps) = w p + total w ps

abbrev pub one_if : Bool → ℕ
one_if b = if b then 1 else 0

-- Calls that sleep in the queue of an operation's limiter.
abbrev pub sleeps_in : {W T : Type 0} → FsOp → Call W T → ℕ
sleeps_in op (asleep j _) = one_if (op_eq j.ctx.op op)
sleeps_in op _ = 0

module _ {F H S W T : Type 0} ⦃fl : Float F⦄ ⦃rng : Rng F⦄ ⦃libc : Libc⦄ ⦃histogram : Histogram H⦄
    ⦃sink : EventSink S⦄ where
  pub data CallStep (a b : System F H S W T) : Type 0 where
    own :
        (l r : List (Call W T)) (p q : Call W T)
        → a.calls ≡ l ++ (p ∷ r)
        → CallMove a.shared p b.shared q
        → b.calls ≡ l ++ (q ∷ r)
        → CallStep a b
    -- a guard drops, and no call sleeps in its limiter
    drops :
        (l r : List (Call W T)) (p q : Call W T) (op : FsOp) (x : OpResources F)
        → a.calls ≡ l ++ (p ∷ r)
        → Drop op p q
        → total (sleeps_in op) a.calls ≡ 0
        → get_resources op a.shared.engine.resources ≡ some x
        → b.shared ≡ set_state op x (release x.limiter.state) a.shared
        → b.calls ≡ l ++ (q ∷ r)
        → CallStep a b
    -- a guard drops, and `notify_one` wakes a sleeping call
    drops_and_wakes :
        (l r l' r' : List (Call W T)) (p q : Call W T) (op : FsOp) (x : OpResources F) (j : Job W T)
        (seq : ℕ)
        → a.calls ≡ l ++ (p ∷ r)
        → Drop op p q
        → l ++ (q ∷ r) ≡ l' ++ (asleep j seq ∷ r')
        → j.ctx.op ≡ op
        → get_resources op a.shared.engine.resources ≡ some x
        → b.shared ≡ set_state op x (release x.limiter.state) a.shared
        → b.calls ≡ l' ++ (woken j seq ∷ r')
        → CallStep a b

  -- The states that the given calls can reach on a new engine.
  pub data Reach (c : Config F) (events : S) (now : ℕ) (world : W) (jobs : List (Job W T))
      : System F H S W T → Type 0 where
    begin :
        {s : System F H S W T}
        → s ≡ record {
          shared = record { engine = new c events now; world = world; log = []; recorded = [] };
          calls = map fresh jobs;
        }
        → Reach c events now world jobs s
    next :
        {a b : System F H S W T}
        → Reach c events now world jobs a
        → CallStep a b
        → Reach c events now world jobs b
