-- ===== src/Limiter/Concurrency/Branches.antt =====
-- How `acquire` and `acquire_timeout` end, branch by branch.
use fusecraft_rs.Base.{
  ℕ, ◌+◌, Option, none, some, ◌≤◌, ◌<◌, ◌≡◌, refl, ◌≢◌, ◌↔◌, ◌⊎◌, true, List, [], ◌∷◌, ◌++◌, le→ltb,
  lt→ltb, All, arith,
}
use fusecraft_rs.Limiter.Concurrency.{
  LimiterState, BlockingLimiter, granted, again, waiting, reject, admit, take_slot, wait_loop,
  acquire, queues, enter, TimedWake, timed_loop, ended, panicked, after_timed_entry,
  acquire_timeout,
}

wait_loop-ne-again :
    (cap : ℕ) (wakes : List (LimiterState × ℕ)) (t : LimiterState) → wait_loop cap wakes ≢ again t
unfolding wait_loop
wait_loop-ne-again cap [] t e = cc
wait_loop-ne-again cap ((s, w) ∷ wakes) t e = ground (arith, wait_loop-ne-again cap wakes t)

-- `acquire` returns EAGAIN exactly when the cap is 0, or when all slots are taken and the queue is
-- full; it then only counts the rejection.
pub acquire_again :
    (l : BlockingLimiter) (wakes : List (LimiterState × ℕ)) (t : LimiterState)
    → (acquire l wakes ≡ again t) ↔ (
        ((l.cap ≡ 0) ⊎ (l.cap ≤ l.state.inflight) × (l.queue_cap ≤ l.state.queued))
        × (t ≡ reject l.state))
unfolding acquire
acquire_again l wakes t = (
  λ h. ground (arith, wait_loop-ne-again l.cap wakes t),
  λ h. ground (arith, wait_loop-ne-again l.cap wakes t),
)

-- No slot is free at a wake-up.
abbrev pub IsFull : ℕ → LimiterState × ℕ → Type 0
IsFull cap w = cap ≤ w.0.inflight

wait_loop_lem :
    (cap : ℕ) (pre post : List (LimiterState × ℕ)) (s : LimiterState) (waited : ℕ)
    → All (IsFull cap) pre
    → s.inflight < cap
    → wait_loop cap (pre ++ ((s, waited) ∷ post)) ≡ granted waited (take_slot waited s)
unfolding wait_loop
wait_loop_lem cap [] post s waited full free = rw (lt→ltb s.inflight cap free)
wait_loop_lem cap ((t, w) ∷ pre) post s waited full free =
    rw (le→ltb t.inflight cap full.0) (wait_loop_lem cap pre post s waited full.1 free)

-- A caller that finds all slots taken and room in the queue, with a cap above 0, gets the slot that
-- is free at the first wake-up that finds one, with the time waited by then.
pub acquire_queued :
    (l : BlockingLimiter) (pre post : List (LimiterState × ℕ)) (s : LimiterState) (waited : ℕ)
    → 0 < l.cap
    → l.cap ≤ l.state.inflight
    → l.state.queued < l.queue_cap
    → All (IsFull l.cap) pre
    → s.inflight < l.cap
    → acquire l (pre ++ ((s, waited) ∷ post)) ≡ granted waited (take_slot waited s)
unfolding acquire
acquire_queued l pre post s waited some_cap full room busy free =
    ground (arith, wait_loop_lem l.cap pre post s waited busy free)

-- A caller that finds a free slot takes it without waiting.
pub acquire_free :
    (l : BlockingLimiter) (wakes : List (LimiterState × ℕ))
    → l.state.inflight < l.cap
    → acquire l wakes ≡ granted 0 (admit l.state)
unfolding acquire
acquire_free l wakes free = ground arith

-- A wake-up after which `acquire_timeout` does not wait again.
abbrev pub IsLast : ℕ → TimedWake → Type 0
IsLast deadline w = (deadline ≤ w.checked_at) ⊎ (w.timed_out ≡ true)

timed_loop_ends :
    (cap deadline : ℕ) (pre post : List TimedWake) (w : TimedWake)
    → IsLast deadline w
    → timed_loop cap deadline (pre ++ (w ∷ post)) ≢ waiting
unfolding timed_loop
timed_loop_ends cap deadline [] post w last e = ground arith
timed_loop_ends cap deadline (v ∷ pre) post w last e =
    ground (arith, timed_loop_ends cap deadline pre post w last)

-- `acquire_timeout` ends once a wait has timed out or no time is left: it returns, or it has panicked
-- before the first wait.
pub acquire_timeout_ends :
    (instant_add : ℕ → ℕ → Option ℕ) (l : BlockingLimiter) (timeout start deadline : ℕ)
    (pre post : List TimedWake) (w : TimedWake)
    → instant_add start timeout ≡ some deadline
    → IsLast deadline w
    → acquire_timeout instant_add l timeout start (pre ++ (w ∷ post)) ≢ ended waiting
unfolding acquire_timeout after_timed_entry
acquire_timeout_ends instant_add l timeout start deadline pre post w fits last e =
    ground (arith, timed_loop_ends l.cap deadline pre post w last)

-- Without a deadline, a caller that has to queue panics, and stays counted in `queued`.
pub acquire_timeout_panics :
    (instant_add : ℕ → ℕ → Option ℕ) (l : BlockingLimiter) (timeout start : ℕ)
    (wakes : List TimedWake) (s : LimiterState)
    → instant_add start timeout ≡ none
    → enter l.cap l.queue_cap l.state ≡ (queues, s)
    → (acquire_timeout instant_add l timeout start wakes ≡ panicked s)
      × (s.queued ≡ l.state.queued + 1)
unfolding acquire_timeout after_timed_entry enter
acquire_timeout_panics instant_add l timeout start wakes s over e =
    (rw (over, e) refl, ground arith)
