-- ===== src/Limiter/Concurrency/Threads/Safety.antt =====
-- What the limiter promises its threads, in every reachable state and for any number of threads.
use fusecraft_rs.Base.{ℕ, ◌+◌, ◌≤◌, ◌<◌, ◌≡◌, ap, List, [], refl, ◌∙◌, ◌∷◌, ◌++◌, arith}
use fusecraft_rs.Base.Word.{u64_mod}
use fusecraft_rs.Limiter.Concurrency.{release}
use fusecraft_rs.Limiter.Concurrency.Threads.{
  Pc, holding, System, total, holders, sleepers, wakers, waiters, panickers, enqueued, Reach,
}
use fusecraft_rs.Limiter.Concurrency.Threads.Invariant.{Reach-Inv, total-middle}

total-enqueued : (ps : List Pc) → total enqueued ps ≡ total waiters ps + total panickers ps
total-enqueued [] = refl
total-enqueued (p ∷ ps) = omega (arith, total-enqueued ps)

module _ {cap queue_cap n : ℕ} {s : System} (small : cap < u64_mod)
    (small_queue : queue_cap < u64_mod) (r : Reach cap queue_cap n s) where
  -- In every state that any number of threads can reach from a new limiter, `inflight` is the
  -- number of threads that hold a slot, at most the cap, and `queued` is the number of threads
  -- that wait and of those that `acquire_timeout` has lost to the panic of `start + timeout`,
  -- together at most the queue cap, for caps below 2^64.
  pub capacity :
      (s.limiter.inflight ≡ total holders s.threads)
      × (total holders s.threads ≤ cap)
      × (s.limiter.queued ≡ total waiters s.threads + total panickers s.threads)
      × (total waiters s.threads + total panickers s.threads ≤ queue_cap)
  capacity =
      let inv = Reach-Inv small small_queue r in
      let both = total-enqueued s.threads in
      (inv.held, inv.within, inv.queue ∙ both, omega (arith, inv.bounded, both))

  -- No wake-up is lost: in a reachable state in which a thread sleeps, with caps below 2^64, the
  -- free slots are at most as many as the threads that have been woken and are about to look for
  -- a slot.
  pub no_lost_wakeup :
      0 < total sleepers s.threads → cap ≤ s.limiter.inflight + total wakers s.threads
  no_lost_wakeup asleep = ground (arith, Reach-Inv small small_queue r)

  -- The threads cannot all be asleep: with a cap above 0 and caps below 2^64, while a thread
  -- sleeps in a reachable state, another holds a slot or has been woken.
  pub no_deadlock :
      0 < cap → 0 < total sleepers s.threads → 0 < total holders s.threads + total wakers s.threads
  no_deadlock some_cap asleep = ground (arith, Reach-Inv small small_queue r)

  -- When a thread that holds a slot drops its guard in a reachable state, with caps below 2^64,
  -- `inflight` goes down by exactly one: the subtraction does not wrap.
  pub release_exact :
      (l t : List Pc)
      → s.threads ≡ l ++ (holding ∷ t)
      → (release s.limiter).inflight + 1 ≡ s.limiter.inflight
  unfolding release
  release_exact l t e =
      ground (
        arith,
        Reach-Inv small small_queue r,
        ap (total holders) e,
        total-middle holders l t holding,
      )
