-- ===== src/Engine/Threads/Service.antt =====
-- Every state that calls can reach has a schedule in which they all end.
use fusecraft_rs.Base.{
  ℕ, zero, suc, ◌≤◌, ◌<◌, ◌≡◌, ◌⊎◌, refl, ap, ◌∙◌, inl, inr, false, ltb, List, ◌∷◌, ◌++◌, All, some,
  arith,
}
use fusecraft_rs.Base.Word.{u64_mod}
use fusecraft_rs.Op.{FsOp}
use fusecraft_rs.Op.Laws.{op_eq_iff}
use fusecraft_rs.Error.{Libc}
use fusecraft_rs.Float.{Float, Rng}
use fusecraft_rs.Config.{Config}
use fusecraft_rs.Config.Valid.{IsValid}
use fusecraft_rs.Limiter.Concurrency.Threads.Safety.{capacity}
use fusecraft_rs.Events.{EventSink}
use fusecraft_rs.Metrics.{Histogram}
use fusecraft_rs.Engine.{OpResources, get_resources}
use fusecraft_rs.Engine.Threads.{
  Job, Call, asleep, woken, slotted, Shared, System, CallMove, CallStep, Drop, Reach, total,
  sleeps_in, inner, takes_slot, own, drops, drops_and_wakes, next,
}
use fusecraft_rs.Engine.Threads.Invariant.{total-replace}
use fusecraft_rs.Engine.Threads.Account.{total-le}
use fusecraft_rs.Engine.Threads.Limiters.{cap_of, queue_cap_of, Reach-IsLimiterRun}
use fusecraft_rs.Engine.Threads.Promises.{some_slot, valid_no_deadlock}
use fusecraft_rs.Engine.Threads.Idle.{
  sleeper, nobody_sleeps, Drop-awake, IsOver, ready_awake, idle_calls,
}
use fusecraft_rs.Engine.Threads.Schedule.{
  Readings, is_asleep, IsMoveTimed, IsPrompted, IsTimed, Schedule, done, and_then,
}
use fusecraft_rs.Engine.Threads.Progress.{
  remaining, is_ready, is_woken, find, holders-total, wakers-total, Next, moves, lets_go,
  ready-Next,
}

module _ {F H S W T : Type 0} ⦃fl : Float F⦄ ⦃rng : Rng F⦄ ⦃libc : Libc⦄ ⦃histogram : Histogram H⦄
    ⦃sink : EventSink S⦄ where
  module _ (clocks : System F H S W T → Call W T → Readings) where
    -- A prompted step, at the readings of the clocks, that brings the calls closer to their ends.
    data Advance (a : System F H S W T) : Type 0 where
      advance :
          (b : System F H S W T) (s : CallStep a b)
          → IsPrompted s
          → IsTimed clocks s
          → total remaining b.calls < total remaining a.calls
          → Advance a

    own-Advance :
        (a : System F H S W T) (l r : List (Call W T)) (p q : Call W T) (b : Shared F H S W)
        (e : a.calls ≡ l ++ (p ∷ r)) (move : CallMove a.shared p b q)
        → is_asleep p ≡ false
        → IsMoveTimed (clocks a p) move
        → remaining q < remaining p
        → Advance a
    own-Advance a l r p q b e move awake timed less =
        advance (record { shared = b; calls = l ++ (q ∷ r) }) (own l r p q e move refl) awake timed
          (omega (arith, total-replace remaining l r p q, ap (total remaining) e, less))

    Drop-Advance :
        (a : System F H S W T) (l r : List (Call W T)) (p q : Call W T) (op : FsOp)
        (x : OpResources F)
        → a.calls ≡ l ++ (p ∷ r)
        → Drop op p q
        → get_resources op a.shared.engine.resources ≡ some x
        → remaining q < remaining p
        → Advance a
    Drop-Advance a l r p q op x e d found less =
        elim (find (λ c. ltb 0 (sleeps_in op c)) (l ++ (q ∷ r))) [
          | inl awake ↦
              let (p_awake, q_awake) = Drop-awake op op p q d in
              advance (record { shared = _; calls = l ++ (q ∷ r) })
                (drops l r p q op x e d
                  (omega (
                    arith,
                    ap (total (sleeps_in op)) e,
                    total-replace (sleeps_in op) l r p q,
                    nobody_sleeps op (l ++ (q ∷ r)) awake,
                    p_awake,
                    q_awake,
                  ))
                  found refl refl)
                tt tt (omega (arith, total-replace remaining l r p q, ap (total remaining) e, less))
          | inr (l', c, r', there, sleeps) ↦
              let (j, seq, is_c, same) = sleeper op c sleeps in
              let here = there ∙ ap (λ z. l' ++ (z ∷ r')) is_c in
              advance (record { shared = _; calls = l' ++ (woken j seq ∷ r') })
                (drops_and_wakes l r l' r' p q op x j seq e d here same found refl refl) tt tt
                (omega (
                  arith,
                  total-replace remaining l r p q,
                  ap (total remaining) e,
                  less,
                  ap (total remaining) here,
                  total-replace remaining l' r' (asleep j seq) (woken j seq),
                ))
        ]

    Next-Advance :
        (a : System F H S W T) (l r : List (Call W T)) (p : Call W T)
        → a.calls ≡ l ++ (p ∷ r)
        → ((o : FsOp) → (x : OpResources F) × (get_resources o a.shared.engine.resources ≡ some x))
        → is_asleep p ≡ false
        → Next a.shared (clocks a p) p
        → Advance a
    Next-Advance a l r p e found awake (moves b q move timed less) =
        own-Advance a l r p q b e move awake timed less
    Next-Advance a l r p e found awake (lets_go op q d less) =
        let (x, h) = found op in Drop-Advance a l r p q op x e d h less

module _ {F H S W T : Type 0} ⦃fl : Float F⦄ ⦃rng : Rng F⦄ ⦃libc : Libc⦄ ⦃histogram : Histogram H⦄
    ⦃sink : EventSink S⦄ (c : Config F) (events : S) (now : ℕ) (world : W) (jobs : List (Job W T))
    (small : (o : FsOp) → cap_of c o < u64_mod)
    (small_queue : (o : FsOp) → queue_cap_of c o < u64_mod) (valid : IsValid c)
    (clocks : System F H S W T → Call W T → Readings) where
  -- With no call ready, a woken call finds a slot.
  woken-Advance :
      (s : System F H S W T) (l r : List (Call W T)) (j : Job W T) (seq : ℕ)
      → Reach c events now world jobs s
      → s.calls ≡ l ++ (woken j seq ∷ r)
      → All (λ p. is_ready p ≡ false) s.calls
      → Advance clocks s
  woken-Advance s l r j seq reached e idle =
      let run = Reach-IsLimiterRun c events now world jobs j.ctx.op s reached in
      let (held, within, queue, bounded) =
        capacity (small j.ctx.op) (small_queue j.ctx.op) run.reached in
      own-Advance clocks s l r (woken j seq) (slotted j seq (clocks s (woken j seq)).1) _ e
        (inner (
          takes_slot j seq (clocks s (woken j seq)).1 run.resources run.found (
            omega (
              arith,
              held,
              holders-total j.ctx.op s.calls idle,
              run.same_cap,
              some_slot j.ctx.op c.ops valid.policies,
            ))))
        refl refl (omega arith)

  -- With no call ready and none woken, no call sleeps.
  asleep_absurd :
      (s : System F H S W T) (l r : List (Call W T)) (j : Job W T) (seq : ℕ)
      → Reach c events now world jobs s
      → s.calls ≡ l ++ (asleep j seq ∷ r)
      → All (λ p. is_ready p ≡ false) s.calls
      → All (λ p. is_woken p ≡ false) s.calls
      → ⊥
  asleep_absurd s l r j seq reached e idle unwoken =
      let stuck =
        valid_no_deadlock c events now world jobs j.ctx.op (small j.ctx.op) (small_queue j.ctx.op) s
          reached valid
          (ground (
            arith,
            total-le (sleeps_in j.ctx.op) l r (asleep j seq),
            ap (total (sleeps_in j.ctx.op)) e,
            (op_eq_iff j.ctx.op j.ctx.op).1 refl,
          )) in
      omega (
        arith,
        stuck,
        holders-total j.ctx.op s.calls idle,
        wakers-total j.ctx.op s.calls idle unwoken,
      )

  advances :
      (s : System F H S W T)
      → Reach c events now world jobs s
      → All IsOver s.calls ⊎ Advance clocks s
  advances s reached = elim (find is_ready s.calls) [
    | inr (l, p, r, e, ready) ↦ inr (
        Next-Advance clocks s l r p e
          (λ o.
            let run = Reach-IsLimiterRun c events now world jobs o s reached in
            (run.resources, run.found))
          (ready_awake p ready)
          (ready-Next s.shared (clocks s p)
            (λ o.
              let run = Reach-IsLimiterRun c events now world jobs o s reached in
              (run.resources, run.found))
            p ready))
    | inl idle ↦ elim (idle_calls s.calls idle) [
      | inl over ↦ inl over
      | inr (l, r, j, seq, inl e) ↦ inr (woken-Advance s l r j seq reached e idle)
      | inr (l, r, j, seq, inr (e, unwoken)) ↦
          absurd (asleep_absurd s l r j seq reached e idle unwoken)
    ]
  ]

  schedule :
      (n : ℕ) (s : System F H S W T)
      → Reach c events now world jobs s
      → total remaining s.calls ≤ n
      → (z : System F H S W T) × Schedule clocks s z × All IsOver z.calls
  schedule zero s reached within = elim (advances s reached) [
    | inl over ↦ (s, done, over)
    | inr (advance b step prompted timed less) ↦ absurd (omega (arith, less, within))
  ]
  schedule (suc n) s reached within = elim (advances s reached) [
    | inl over ↦ (s, done, over)
    | inr (advance b step prompted timed less) ↦
        let (z, rest, over) = schedule n b (next reached step) (omega (arith, less, within)) in
        (z, and_then step prompted timed rest, over)
  ]

  -- With a valid configuration whose caps are below 2^64, the calls can all end from every state
  -- that calls of `run_op`, interleaved in any way on a new engine, can reach: whatever the
  -- clocks give each call in each state, there is a schedule that takes those readings, in which
  -- no call wakes from the queue but by a notification, to a state in which each call has
  -- returned or has ended in a panic.
  pub every_one_ends :
      (s : System F H S W T)
      → Reach c events now world jobs s
      → (z : System F H S W T) × Schedule clocks s z × All IsOver z.calls
  every_one_ends s reached = schedule (total remaining s.calls) s reached (omega arith)
