-- ===== src/Limiter/Concurrency/Threads/Invariant.antt =====
-- What holds of the limiter and its threads in every reachable state.
use fusecraft_rs.Base.{
  ℕ, zero, suc, ◌+◌, ◌≤◌, ◌<◌, ◌≡◌, refl, sym, ap, ◌∙◌, ◌⊎◌, inl, List, [], ◌∷◌, ◌++◌, arith,
}
use fusecraft_rs.Base.Word.{u64_mod}
use fusecraft_rs.Limiter.Concurrency.{LimiterState, new, enter, take_slot, give_up, release}
use fusecraft_rs.Limiter.Concurrency.Threads.{
  Pc, outside, holding, sleeping, woken, Move, admits, refuses, waits, no_time, panics, stirs,
  expires, takes, sleeps, runs_out, takes_late, gives_up, System, total, holders, sleepers, wakers,
  enqueued, Step, own, drops_and_wakes, drops, all_outside, Reach, start, next,
}

-- The counters of the state against the numbers of threads that hold a slot, are queued, sleep, or have
-- been woken. `awake` is the absence of lost wake-ups: while a thread sleeps, every free slot has a
-- woken thread that is on its way to it.
pub record Counts (cap queue_cap : ℕ) (s : LimiterState) (h w z k : ℕ) : Type 0 where
  pub held : s.inflight ≡ h
  pub queue : s.queued ≡ w
  pub within : h ≤ cap
  pub bounded : w ≤ queue_cap
  pub awake : (z ≡ 0) ⊎ (cap ≤ h + k)

abbrev pub Inv : ℕ → ℕ → System → Type 0
Inv cap queue_cap a =
    Counts cap queue_cap a.limiter (total holders a.threads) (total enqueued a.threads)
      (total sleepers a.threads) (total wakers a.threads)

pub total-middle :
    (w : Pc → ℕ) (l r : List Pc) (p : Pc) → total w (l ++ (p ∷ r)) ≡ w p + total w (l ++ r)
total-middle w [] r p = refl
total-middle w (x ∷ l) r p = omega (arith, total-middle w l r p)

module _ {cap queue_cap : ℕ} (small : cap < u64_mod) (small_queue : queue_cap < u64_mod) where
  -- A move of one thread, the others adding up to `h`, `w`, `z` and `k`.
  Move-Counts :
      {s t : LimiterState} {p q : Pc} (h w z k : ℕ)
      → Move cap queue_cap s p t q
      → Counts cap queue_cap s (holders p + h) (enqueued p + w) (sleepers p + z) (wakers p + k)
      → Counts cap queue_cap t (holders q + h) (enqueued q + w) (sleepers q + z) (wakers q + k)
  unfolding enter take_slot give_up
  Move-Counts h w z k (admits e) c = ground arith
  Move-Counts h w z k (refuses e) c = ground arith
  Move-Counts h w z k (waits timed e) c = ground arith
  Move-Counts h w z k (no_time e) c = ground arith
  Move-Counts h w z k (panics e) c = ground arith
  Move-Counts h w z k (stirs timed) c = ground arith
  Move-Counts h w z k expires c = ground arith
  Move-Counts h w z k (takes wait e) c = ground arith
  Move-Counts h w z k (sleeps timed e) c = ground arith
  Move-Counts h w z k (runs_out e) c = ground arith
  Move-Counts h w z k (takes_late wait e) c = ground arith
  Move-Counts h w z k (gives_up e) c = ground arith

  -- The counters with one thread set apart, and back.
  split :
      (s : LimiterState) (l r : List Pc) (p : Pc) (ts : List Pc)
      → ts ≡ l ++ (p ∷ r)
      → Inv cap queue_cap (record { limiter = s; threads = ts })
      → Counts cap queue_cap s
          (holders p + total holders (l ++ r))
          (enqueued p + total enqueued (l ++ r))
          (sleepers p + total sleepers (l ++ r))
          (wakers p + total wakers (l ++ r))
  split s l r p ts e c =
      rw
        (
          ← total-middle holders l r p,
          ← total-middle enqueued l r p,
          ← total-middle sleepers l r p,
          ← total-middle wakers l r p,
          ← e,
        )
        c

  join :
      (s : LimiterState) (l r : List Pc) (p : Pc) (ts : List Pc)
      → ts ≡ l ++ (p ∷ r)
      → Counts cap queue_cap s
          (holders p + total holders (l ++ r))
          (enqueued p + total enqueued (l ++ r))
          (sleepers p + total sleepers (l ++ r))
          (wakers p + total wakers (l ++ r))
      → Inv cap queue_cap (record { limiter = s; threads = ts })
  join s l r p ts e c =
      rw
        (
          e,
          total-middle holders l r p,
          total-middle enqueued l r p,
          total-middle sleepers l r p,
          total-middle wakers l r p,
        )
        c

  -- The drop of a guard while no thread sleeps, and while one is woken.
  release-Counts :
      {s t : LimiterState} (h w z k : ℕ)
      → t ≡ release s
      → z ≡ 0
      → Counts cap queue_cap s (1 + h) (0 + w) (0 + z) (0 + k)
      → Counts cap queue_cap t (0 + h) (0 + w) (0 + z) (0 + k)
  unfolding release
  release-Counts h w z k e none_sleep c = ground arith

  release_wake-Counts :
      {s t : LimiterState} (h w z k h' w' z' k' : ℕ)
      → t ≡ release s
      → 0 + h ≡ 0 + h'
      → 0 + w ≡ 1 + w'
      → 0 + z ≡ 1 + z'
      → 0 + k ≡ 0 + k'
      → Counts cap queue_cap s (1 + h) (0 + w) (0 + z) (0 + k)
      → Counts cap queue_cap t (0 + h') (1 + w') (0 + z') (1 + k')
  unfolding release
  release_wake-Counts h w z k h' w' z' k' e eh ew ez ek c = ground arith

  -- Every step keeps the invariant.
  pub Step-Inv : {a b : System} → Step cap queue_cap a b → Inv cap queue_cap a → Inv cap queue_cap b
  Step-Inv {a} {b} (own l r p q ea mv eb) c =
      join b.limiter l r q b.threads eb
        (Move-Counts _ _ _ _ mv (split a.limiter l r p a.threads ea c))
  Step-Inv {a} {b} (drops_and_wakes l r l' r' timed ea mid eb es) c =
      let before = split a.limiter l r holding a.threads ea c in
      let same = λ (w : Pc → ℕ).
        sym (total-middle w l r outside)
        ∙ ap (total w) mid
        ∙ total-middle w l' r' (sleeping timed) in
      join b.limiter l' r' (woken timed) b.threads eb (
        release_wake-Counts _ _ _ _ _ _ _ _ es (same holders) (same enqueued) (same sleepers)
          (same wakers) before)
  Step-Inv {a} {b} (drops l r ea alone eb es) c =
      let before = split a.limiter l r holding a.threads ea c in
      let none_sleep : total sleepers (l ++ r) ≡ 0 =
        omega (arith, alone, ap (total sleepers) ea, total-middle sleepers l r holding) in
      join b.limiter l r outside b.threads eb (release-Counts _ _ _ _ es none_sleep before)

  total-all_outside : (w : Pc → ℕ) (n : ℕ) → w outside ≡ 0 → total w (all_outside n) ≡ 0
  total-all_outside w zero h = refl
  total-all_outside w (suc n) h = omega (arith, total-all_outside w n h)

  -- With caps that fit a `usize`, the invariant holds in every state that `n` threads can reach.
  pub Reach-Inv : {n : ℕ} {s : System} → Reach cap queue_cap n s → Inv cap queue_cap s
  unfolding new
  Reach-Inv {n} {s} (start e) =
      rw
        (
          e,
          total-all_outside holders n refl,
          total-all_outside enqueued n refl,
          total-all_outside sleepers n refl,
        )
        (record {
          held = refl;
          queue = refl;
          within = omega arith;
          bounded = omega arith;
          awake = inl refl;
        })
  Reach-Inv (next r st) = Step-Inv st (Reach-Inv r)
