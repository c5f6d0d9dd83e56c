-- ===== src/Tests/Limiter.antt =====
-- Examples for the two limiters.
use fusecraft_rs.Base.{◌+◌, ◌≤◌, ◌<◌, ◌≡◌, ◌↔◌, ◌⊎◌, refl, true, [], ◌∷◌, arith}
use fusecraft_rs.Float.Fixed.{Fixed, plus, fixed, fixed-IsBucketOrder}
use fusecraft_rs.Limiter.Concurrency.{
  LimiterState, BlockingLimiter, again, admit, reject, acquire, new, enter,
}
use fusecraft_rs.Limiter.Concurrency.Branches.{acquire_again}
use fusecraft_rs.Limiter.Concurrency.Threads.{
  outside, holding, sleeping, stranded, panickers, System, Move, Step, Reach, total, holders,
  waiters, wakers,
}
use fusecraft_rs.Limiter.Concurrency.Threads.Safety.{capacity, no_lost_wakeup, no_deadlock}
use fusecraft_rs.Limiter.Bandwidth.{BandwidthLimiter, reserve}
use fusecraft_rs.Limiter.Bandwidth as Bandwidth
use fusecraft_rs.Limiter.Bandwidth.Laws.{reserve_all, reserve_all-total, tokens-le_burst}

abbrev idle : LimiterState
idle = record {
  inflight = 0;
  queued = 0;
  total_acquired = 0;
  total_rejected = 0;
  total_queue_wait_ns = 0;
}

abbrev busy : LimiterState
busy = record idle { inflight = 1; total_acquired = 1 }

abbrev queued : LimiterState
queued = record busy { queued = 1 }

-- Three threads and one slot: one thread holds it, one sleeps in the queue, and one has panicked as it
-- began to queue.
abbrev one_waits : System
one_waits = record {
  limiter = record queued { queued = 2 };
  threads = holding ∷ sleeping true ∷ stranded ∷ [];
}

abbrev two_in : System
two_in = record { limiter = queued; threads = holding ∷ sleeping true ∷ outside ∷ [] }

abbrev one_holds : System
one_holds = record { limiter = busy; threads = holding ∷ outside ∷ outside ∷ [] }

abbrev all_idle : System
all_idle = record { limiter = idle; threads = outside ∷ outside ∷ outside ∷ [] }

one_waits-Reach : Reach 1 2 3 one_waits
unfolding new enter admit
one_waits-Reach =
    let begin : Reach 1 2 3 all_idle = Reach.start refl in
    let first : Step 1 2 all_idle one_holds =
      Step.own [] (outside ∷ outside ∷ []) outside holding refl (Move.admits refl) refl in
    let second : Step 1 2 one_holds two_in =
      Step.own (holding ∷ []) (outside ∷ []) outside (sleeping true) refl (Move.waits true refl)
        refl in
    let third : Step 1 2 two_in one_waits =
      Step.own (holding ∷ sleeping true ∷ []) [] outside stranded refl (Move.panics refl) refl in
    Reach.next (Reach.next (Reach.next begin first) second) third

capacity_example :
    (1 ≡ total holders one_waits.threads)
    × (total holders one_waits.threads ≤ 1)
    × (2 ≡ total waiters one_waits.threads + total panickers one_waits.threads)
    × (total waiters one_waits.threads + total panickers one_waits.threads ≤ 2)
capacity_example = capacity (omega arith) (omega arith) one_waits-Reach

no_lost_wakeup_example : 1 ≤ 1 + total wakers one_waits.threads
no_lost_wakeup_example = no_lost_wakeup (omega arith) (omega arith) one_waits-Reach (omega arith)

no_deadlock_example : 0 < total holders one_waits.threads + total wakers one_waits.threads
no_deadlock_example =
    no_deadlock (omega arith) (omega arith) one_waits-Reach (omega arith) (omega arith)

abbrev one_slot : BlockingLimiter
one_slot = record { state = busy; cap = 1; queue_cap = 1 }

acquire_again_example :
    (acquire (record one_slot { state = queued }) [] ≡ again (reject queued))
    ↔ (((one_slot.cap ≡ 0) ⊎ (1 ≤ 1) × (1 ≤ 1)) × (reject queued ≡ reject queued))
acquire_again_example = acquire_again (record one_slot { state = queued }) [] (reject queued)

-- Four bytes a second, and a burst of eight.
abbrev bucket : BandwidthLimiter Fixed
bucket = record {
  rate = plus 4000;
  capacity = plus 8000;
  state = record { tokens = plus 8000; last = 0; total_bytes_reserved = 3; total_throttled = 0 };
}

reserve_all-total_example :
    (reserve_all bucket ((5, 1000) ∷ (6, 2000) ∷ [])).state.total_bytes_reserved ≡ 14
reserve_all-total_example = reserve_all-total bucket ((5, 1000) ∷ (6, 2000) ∷ []) (omega arith)

tokens-le_burst_example :
    fixed.le
      (reserve_all
        (Bandwidth.new (record { bytes_per_sec = plus 4000; burst_bytes = 8 }) 0)
        ((5, 1000) ∷ [])).state.tokens
      (fixed.of_u64 8)
    ≡ true
tokens-le_burst_example =
    tokens-le_burst fixed-IsBucketOrder (record { bytes_per_sec = plus 4000; burst_bytes = 8 }) 0
      ((5, 1000) ∷ [])
