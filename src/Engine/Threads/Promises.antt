-- ===== src/Engine/Threads/Promises.antt =====
-- What the limiters promise the calls of an engine.
use fusecraft_rs.Base.{
  ℕ, ◌+◌, ◌≤◌, ◌<◌, ◌≡◌, refl, true, false, Bool-cases, inl, inr, List, [], ◌∷◌, map, All, some,
  arith,
}
use fusecraft_rs.Base.Word.{u64_mod}
use fusecraft_rs.Op.{FsOp, op_eq}
use fusecraft_rs.Error.{Libc}
use fusecraft_rs.Float.{Float, Rng}
use fusecraft_rs.Config.{Config, OpPolicy, get_policy, default_policy}
use fusecraft_rs.Config.Valid.{IsValid, IsValidPolicy}
use fusecraft_rs.Limiter.Concurrency.Threads.{
  Pc, outside, holding, sleeping, holders, wakers, waiters, panickers,
}
use fusecraft_rs.Limiter.Concurrency.Threads.Safety.{capacity, no_deadlock}
use fusecraft_rs.Limiter.Concurrency.Threads as Limiter
use fusecraft_rs.Events.{EventSink}
use fusecraft_rs.Metrics.{Histogram}
use fusecraft_rs.Engine.{OpResources, get_resources, unwrap_or_default}
use fusecraft_rs.Engine.Threads.{
  fresh, numbered, asleep, woken, slotted, delayed, reporting, recording, closing, finished,
  panicking, lost, Job, Call, System, Reach, total, sleeps_in,
}
use fusecraft_rs.Engine.Threads.Seen.{pick, pc}
use fusecraft_rs.Engine.Threads.Drops.{sleepers-map}
use fusecraft_rs.Engine.Threads.Limiters.{cap_of, queue_cap_of, Reach-IsLimiterRun}

-- Every policy of a valid configuration has a slot, and so has the default.
pub some_slot :
    {F : Type 0} ⦃fl : Float F⦄ (o : FsOp) (es : List (FsOp × OpPolicy F))
    → All (λ e. IsValidPolicy e.0 e.1) es
    → 0 < (unwrap_or_default (get_policy o es)).concurrency_cap
unfolding get_policy default_policy
some_slot o [] valid = omega arith
some_slot o ((k, p) ∷ es) (first, rest) = elim (Bool-cases (op_eq k o)) [
  | inl same ↦ rw same first.cap
  | inr other ↦ rw other (some_slot o es rest)
]

-- The calls that hold a slot of the limiter of `o`, and those that wait in its queue.
abbrev pub in_slot : {W T : Type 0} → FsOp → List (Call W T) → ℕ
in_slot o calls = Limiter.total holders (map (pc o) calls)

abbrev pub in_queue : {W T : Type 0} → FsOp → List (Call W T) → ℕ
in_queue o calls = Limiter.total waiters (map (pc o) calls)

-- The calls that wait in the queue and are awake, about to look for a slot.
abbrev pub awake_in : {W T : Type 0} → FsOp → List (Call W T) → ℕ
awake_in o calls = Limiter.total wakers (map (pc o) calls)

panickers-pick : (op o : FsOp) (x : Pc) → panickers x ≡ 0 → panickers (pick op o x) ≡ 0
panickers-pick op o x h = ground (arith, h)

module _ {W T : Type 0} where
  -- No call of `run_op` sets a timeout, so that none panics in the limiter.
  panickers-pc : (o : FsOp) (p : Call W T) → panickers (pc o p) ≡ 0
  panickers-pc o (fresh j) = panickers-pick j.ctx.op o outside refl
  panickers-pc o (numbered j seq) = panickers-pick j.ctx.op o outside refl
  panickers-pc o (asleep j seq) = panickers-pick j.ctx.op o (sleeping false) refl
  panickers-pc o (woken j seq) = panickers-pick j.ctx.op o (Limiter.woken false) refl
  panickers-pc o (slotted j seq wait) = panickers-pick j.ctx.op o holding refl
  panickers-pc o (delayed j seq fault wait latency delay) = panickers-pick j.ctx.op o holding refl
  panickers-pc o (reporting true result ev) = panickers-pick ev.op o holding refl
  panickers-pc o (reporting false result ev) = panickers-pick ev.op o outside refl
  panickers-pc o (recording true result ev) = panickers-pick ev.op o holding refl
  panickers-pc o (recording false result ev) = panickers-pick ev.op o outside refl
  panickers-pc o (closing op result) = panickers-pick op o holding refl
  panickers-pc o (finished result) = refl
  panickers-pc o (panicking op seq) = panickers-pick op o holding refl
  panickers-pc o (lost seq) = refl

  panickers-map :
      (o : FsOp) (calls : List (Call W T)) → Limiter.total panickers (map (pc o) calls) ≡ 0
  panickers-map o [] = refl
  panickers-map o (p ∷ ps) = omega (arith, panickers-pc o p, panickers-map o ps)

module _ {F H S W T : Type 0} ⦃fl : Float F⦄ ⦃rng : Rng F⦄ ⦃libc : Libc⦄ ⦃histogram : Histogram H⦄
    ⦃sink : EventSink S⦄ (c : Config F) (events : S) (now : ℕ) (world : W) (jobs : List (Job W T))
    (o : FsOp) (small : cap_of c o < u64_mod) (small_queue : queue_cap_of c o < u64_mod)
    (s : System F H S W T) (reached : Reach c events now world jobs s) where
  -- In every state that calls of `run_op`, interleaved in any way on a new engine, can reach, the
  -- limiter's two counts are the numbers of the operation's calls that hold a slot, a panicking
  -- one until it drops its guard included, and that wait; the first is within the policy's
  -- concurrency cap and the second within its queue cap. The two caps are below 2^64.
  pub slots_within_cap :
      (r : OpResources F) × (get_resources o s.shared.engine.resources ≡ some r)
      × (r.limiter.state.inflight ≡ in_slot o s.calls)
      × (in_slot o s.calls ≤ cap_of c o)
      × (r.limiter.state.queued ≡ in_queue o s.calls)
      × (in_queue o s.calls ≤ queue_cap_of c o)
  slots_within_cap =
      let run = Reach-IsLimiterRun c events now world jobs o s reached in
      let (held, within, queue, bounded) = capacity small small_queue run.reached in
      let none_stranded = panickers-map o s.calls in
      (
        run.resources,
        run.found,
        held,
        within,
        omega (arith, queue, none_stranded),
        omega (arith, bounded, none_stranded, run.same_queue_cap),
      )

  -- While a call sleeps in the queue of an operation, another call holds a slot of it, or is awake.
  pub valid_no_deadlock :
      IsValid c → 0 < total (sleeps_in o) s.calls → 0 < in_slot o s.calls + awake_in o s.calls
  valid_no_deadlock valid sleeps =
      let run = Reach-IsLimiterRun c events now world jobs o s reached in
      no_deadlock small small_queue run.reached (some_slot o c.ops valid.policies)
        (omega (arith, sleepers-map o s.calls))
