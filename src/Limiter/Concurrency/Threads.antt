-- ===== src/Limiter/Concurrency/Threads.antt =====
-- Any number of threads over one `BlockingLimiter`, interleaved in any order. A step is one critical
-- section of one thread, or a wake-up. `notify_one` of parking_lot wakes one sleeping thread if there
-- is one; a sleeping thread may also wake by itself, which the loop of `acquire` allows for.
pub mod Invariant
pub mod Safety
use fusecraft_rs.Base.{ℕ, ◌+◌, ◌≤◌, ◌<◌, ◌≡◌, Bool, true, false, List, [], ◌∷◌, ◌++◌}
use fusecraft_rs.Limiter.Concurrency.{
  LimiterState, BlockingLimiter, Entry, admitted, rejected, queues, new, enter, take_slot, give_up,
  release,
}

-- Where a thread stands. The flag of a waiter tells `acquire_timeout` from `acquire`.
pub data Pc : Type 0 where
  outside : Pc
  holding : Pc
  sleeping : (timed : Bool) → Pc
  woken : (timed : Bool) → Pc
  expired : Pc
  -- ended in the panic of `acquire_timeout`, with its place in `queued` never given back
  stranded : Pc

-- One thread's own steps, with the limiter's state before and after.
pub data Move (cap queue_cap : ℕ) (s : LimiterState) : Pc → LimiterState → Pc → Type 0 where
  -- the first critical section
  admits :
      {t : LimiterState}
      → enter cap queue_cap s ≡ (admitted, t)
      → Move cap queue_cap s outside t holding
  refuses :
      {t : LimiterState}
      → enter cap queue_cap s ≡ (rejected, t)
      → Move cap queue_cap s outside t outside
  waits :
      {t : LimiterState} (timed : Bool)
      → enter cap queue_cap s ≡ (queues, t)
      → Move cap queue_cap s outside t (sleeping timed)
  -- `acquire_timeout` with no time left when it begins to queue
  no_time :
      {t : LimiterState}
      → enter cap queue_cap s ≡ (queues, t)
      → Move cap queue_cap s outside (give_up t) outside
  -- `start + timeout` in `acquire_timeout` is no `Instant`
  panics :
      {t : LimiterState}
      → enter cap queue_cap s ≡ (queues, t)
      → Move cap queue_cap s outside t stranded
  -- a wake-up that no notification caused, and one by the timeout
  stirs : (timed : Bool) → Move cap queue_cap s (sleeping timed) s (woken timed)
  expires : Move cap queue_cap s (sleeping true) s expired
  -- the critical section after a wake-up
  takes :
      {timed : Bool} (wait : ℕ)
      → s.inflight < cap
      → Move cap queue_cap s (woken timed) (take_slot wait s) holding
  sleeps : (timed : Bool) → cap ≤ s.inflight → Move cap queue_cap s (woken timed) s (sleeping timed)
  runs_out : cap ≤ s.inflight → Move cap queue_cap s (woken true) (give_up s) outside
  takes_late :
      (wait : ℕ) → s.inflight < cap → Move cap queue_cap s expired (take_slot wait s) holding
  gives_up : cap ≤ s.inflight → Move cap queue_cap s expired (give_up s) outside

pub record System : Type 0 where
  pub limiter : LimiterState
  pub threads : List Pc

-- The sum of a weight over the threads.
abbrev pub total : (Pc → ℕ) → List Pc → ℕ
total w [] = 0
total w (p ∷ ps) = w p + total w ps

abbrev pub holders : Pc → ℕ
holders holding = 1
holders _ = 0

abbrev pub sleepers : Pc → ℕ
sleepers (sleeping _) = 1
sleepers _ = 0

abbrev pub wakers : Pc → ℕ
wakers (woken _) = 1
wakers _ = 0

abbrev pub waiters : Pc → ℕ
waiters (sleeping _) = 1
waiters (woken _) = 1
waiters expired = 1
waiters _ = 0

abbrev pub panickers : Pc → ℕ
panickers stranded = 1
panickers _ = 0

-- The threads that `queued` counts.
abbrev pub enqueued : Pc → ℕ
enqueued p = waiters p + panickers p

pub data Step (cap queue_cap : ℕ) (a b : System) : Type 0 where
  own :
      (l r : List Pc) (p q : Pc)
      → a.threads ≡ l ++ (p ∷ r)
      → Move cap queue_cap a.limiter p b.limiter q
      → b.threads ≡ l ++ (q ∷ r)
      → Step cap queue_cap a b
  -- the guard of a thread drops, and `notify_one` wakes a sleeping thread
  drops_and_wakes :
      (l r l' r' : List Pc) (timed : Bool)
      → a.threads ≡ l ++ (holding ∷ r)
      → l ++ (outside ∷ r) ≡ l' ++ (sleeping timed ∷ r')
      → b.threads ≡ l' ++ (woken timed ∷ r')
      → b.limiter ≡ release a.limiter
      → Step cap queue_cap a b
  -- the guard drops, and no thread sleeps
  drops :
      (l r : List Pc)
      → a.threads ≡ l ++ (holding ∷ r)
      → total sleepers a.threads ≡ 0
      → b.threads ≡ l ++ (outside ∷ r)
      → b.limiter ≡ release a.limiter
      → Step cap queue_cap a b

-- `n` threads, none of which has called the limiter.
abbrev pub all_outside : ℕ → List Pc
all_outside ℕ.zero = []
all_outside (ℕ.suc n) = outside ∷ all_outside n

pub data Reach (cap queue_cap n : ℕ) : System → Type 0 where
  start :
      {s : System}
      → s ≡ record { limiter = (new cap queue_cap).state; threads = all_outside n }
      → Reach cap queue_cap n s
  next : {a b : System} → Reach cap queue_cap n a → Step cap queue_cap a b → Reach cap queue_cap n b
