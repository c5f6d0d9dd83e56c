-- ===== src/Limiter/Concurrency.antt =====
-- crates/fusecraft-core/src/limiter/concurrency.rs: `BlockingLimiter`.
-- A critical section under the mutex is a function on `LimiterState`. A caller that waits gives the
-- mutex up: the states that it finds when the condition variable wakes it are an argument, since
-- other threads make them. Numbers are those of the release profile, where a `u64` wraps.
pub mod Branches
pub mod Threads
use fusecraft_rs.Base.{
  ℕ, ◌+◌, ◌-◌, Bool, true, false, ◌==◌, ltb, leb, if◌then◌else◌, List, [], ◌∷◌, Option, none, some,
}
use fusecraft_rs.Base.Word.{wrapping_add, wrapping_sub, to_u64}

pub record LimiterStats : Type 0 where
  pub inflight : ℕ
  pub queued : ℕ
  pub total_acquired : ℕ
  pub total_rejected : ℕ
  pub total_queue_wait : ℕ

pub record LimiterState : Type 0 where
  pub inflight : ℕ
  pub queued : ℕ
  pub total_acquired : ℕ
  pub total_rejected : ℕ
  pub total_queue_wait_ns : ℕ

pub record BlockingLimiter : Type 0 where
  pub state : LimiterState
  pub cap : ℕ
  pub queue_cap : ℕ

unfoldable pub new : ℕ → ℕ → BlockingLimiter
new cap queue_cap = record {
  state = record {
    inflight = 0;
    queued = 0;
    total_acquired = 0;
    total_rejected = 0;
    total_queue_wait_ns = 0;
  };
  cap = cap;
  queue_cap = queue_cap;
}

-- What the first critical section of `acquire` and `acquire_timeout` decides.
pub data Entry : Type 0 where
  admitted rejected queues : Entry

unfoldable pub reject : LimiterState → LimiterState
reject s = record s { total_rejected = wrapping_add s.total_rejected 1 }

unfoldable pub admit : LimiterState → LimiterState
admit s = record s { inflight = s.inflight + 1; total_acquired = wrapping_add s.total_acquired 1 }

-- From the lock to the first wait.
unfoldable pub enter : ℕ → ℕ → LimiterState → Entry × LimiterState
unfolding reject admit
enter cap queue_cap s =
    if cap == 0
    then (rejected, reject s)
    else if ltb s.inflight cap
    then (admitted, admit s)
    else if leb queue_cap s.queued
    then (rejected, reject s)
    else (queues, record s { queued = s.queued + 1 })

-- The body of the `if` after a wait, `wait` nanoseconds after the caller began to queue.
unfoldable pub take_slot : ℕ → LimiterState → LimiterState
unfolding admit
take_slot wait s = record (admit s) {
  queued = wrapping_sub s.queued 1;
  total_queue_wait_ns = wrapping_add s.total_queue_wait_ns (to_u64 wait);
}

-- A waiter of `acquire_timeout` gives up.
unfoldable pub give_up : LimiterState → LimiterState
unfolding reject
give_up s = reject (record s { queued = wrapping_sub s.queued 1 })

-- How `acquire` ends: a guard with its queue wait, EAGAIN, or a wait that is not over.
pub data Outcome : Type 0 where
  granted : (queue_wait : ℕ) → LimiterState → Outcome
  again : LimiterState → Outcome
  waiting : Outcome

-- The loop of `acquire`: each entry is the state at a wake-up and the time waited by then.
unfoldable pub wait_loop : ℕ → List (LimiterState × ℕ) → Outcome
unfolding take_slot
wait_loop cap [] = waiting
wait_loop cap ((s, waited) ∷ wakes) =
    let rest = wait_loop cap wakes in
    if ltb s.inflight cap then granted waited (take_slot waited s) else rest

unfoldable pub after_entry : Entry × LimiterState → Outcome → Outcome
after_entry (admitted, s) waits = granted 0 s
after_entry (rejected, s) waits = again s
after_entry (queues, s) waits = waits

unfoldable pub acquire : BlockingLimiter → List (LimiterState × ℕ) → Outcome
unfolding enter wait_loop after_entry
acquire l wakes = after_entry (enter l.cap l.queue_cap l.state) (wait_loop l.cap wakes)

-- A turn of the loop in `acquire_timeout`: the clock before the wait, the state after it, whether the
-- wait timed out, and the time waited.
pub record TimedWake : Type 0 where
  pub checked_at : ℕ
  pub before : LimiterState
  pub found : LimiterState
  pub timed_out : Bool
  pub waited : ℕ

-- `deadline.saturating_duration_since(Instant::now())` is the subtraction of natural numbers.
unfoldable pub timed_loop : ℕ → ℕ → List TimedWake → Outcome
unfolding take_slot give_up
timed_loop cap deadline [] = waiting
timed_loop cap deadline (w ∷ wakes) =
    let rest = timed_loop cap deadline wakes in
    if (deadline - w.checked_at) == 0
    then again (give_up w.before)
    else if ltb w.found.inflight cap
    then granted w.waited (take_slot w.waited w.found)
    else if w.timed_out
    then again (give_up w.found)
    else rest

-- How `acquire_timeout` ends: as `acquire` may, or in the panic of `start + timeout`, which unwinds
-- through the critical section and leaves its state as it is.
pub data TimedOutcome : Type 0 where
  ended : Outcome → TimedOutcome
  panicked : LimiterState → TimedOutcome

-- From the first critical section on; the deadline is there if `start + timeout` is an `Instant`.
unfoldable pub after_timed_entry :
    ℕ → Entry × LimiterState → Option ℕ → List TimedWake → TimedOutcome
unfolding timed_loop
after_timed_entry cap (admitted, s) deadline wakes = ended (granted 0 s)
after_timed_entry cap (rejected, s) deadline wakes = ended (again s)
after_timed_entry cap (queues, s) none wakes = panicked s
after_timed_entry cap (queues, s) (some deadline) wakes = ended (timed_loop cap deadline wakes)

-- `instant_add` is the platform's `Instant::checked_add`; `start` is the clock as the caller begins
-- to queue.
unfoldable pub acquire_timeout :
    (instant_add : ℕ → ℕ → Option ℕ)
    → BlockingLimiter
    → (timeout start : ℕ) → List TimedWake
    → TimedOutcome
unfolding enter after_timed_entry
acquire_timeout instant_add l timeout start wakes =
    after_timed_entry l.cap (enter l.cap l.queue_cap l.state) (instant_add start timeout) wakes

unfoldable pub stats : LimiterState → LimiterStats
stats s = record {
  inflight = s.inflight;
  queued = s.queued;
  total_acquired = s.total_acquired;
  total_rejected = s.total_rejected;
  total_queue_wait = s.total_queue_wait_ns;
}

-- `release`, which `LimiterGuard::drop` calls; the notification is a step of `Threads`.
unfoldable pub release : LimiterState → LimiterState
release s = record s { inflight = wrapping_sub s.inflight 1 }
