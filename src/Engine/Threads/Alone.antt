-- ===== src/Engine/Threads/Alone.antt =====
-- `run_op` called while no other call is under way is a sequence of the steps of Threads: with the
-- same result or panic, the same engine and the same world.
use fusecraft_rs.Base.{ℕ, ◌≡◌, refl, subst, true, false, [], ◌∷◌, ◌++◌, none, some, Result, err}
use fusecraft_rs.Base.Word.{checked_add, from_micros, as_micros}
use fusecraft_rs.Error.{Libc, FsError, errno}
use fusecraft_rs.Float.{Float, Rng}
use fusecraft_rs.Limiter.Concurrency.{LimiterState, admitted, rejected, queues, enter, release}
use fusecraft_rs.Events.{Event, EventSink, error}
use fusecraft_rs.Metrics.{Histogram}
use fusecraft_rs.Engine.{
  OpResources, Clock, Run, returned, panicked, blocked, get_resources, large_tier, select_tier,
}
use fusecraft_rs.Engine.Lifecycle.{event_of, classify, execute, set_limiter, report}
use fusecraft_rs.Engine.Slot.{fault_of, latency_of, delay_of}
use fusecraft_rs.Engine.Threads.Table.{holding_state, found_taken, found_paid, final_table}
use fusecraft_rs.Engine.Threads.{
  Job, Call, numbered, asleep, slotted, delayed, reporting, recording, closing, finished, panicking,
  lost, Shared, System, set_resources, set_state, charged, set_charged, sampled, again_errno,
  CallMove, CallStep, Drop, inner, emits, records, closes, unwinds, is_admitted, is_rejected,
  queues_up, overflows, delays, executes, own, drops, emit_event, record_event,
}

module _ {F H S W T : Type 0} ⦃fl : Float F⦄ ⦃rng : Rng F⦄ ⦃libc : Libc⦄ ⦃histogram : Histogram H⦄
    ⦃sink : EventSink S⦄ where
  -- Any number of steps.
  pub data Steps : System F H S W T → System F H S W T → Type 0 where
    stop : {a : System F H S W T} → Steps a a
    step : {a b c : System F H S W T} → CallStep a b → Steps b c → Steps a c

  joined : {a b c : System F H S W T} → Steps a b → Steps b c → Steps a c
  joined stop rest = rest
  joined (step first more) rest = step first (joined more rest)

  -- The system of one call.
  abbrev pub alone : Shared F H S W → Call W T → System F H S W T
  alone a p = record { shared = a; calls = p ∷ [] }

  pub moved :
      (a b c : Shared F H S W) (p q r : Call W T)
      → CallMove a p b q
      → Steps (alone b q) (alone c r)
      → Steps (alone a p) (alone c r)
  moved a b c p q r m rest =
      step {a = alone a p} {b = alone b q} {c = alone c r} (own [] [] p q refl m refl) rest

  -- The end of a call that began alone, as `run_op` reports it.
  abbrev pub EndsAs : System F H S W T → Shared F H S W → Job W T → ℕ → Run F H S W T → Type 0
  EndsAs start a j seq (returned result e w) =
      (ev : Event) × Steps start (
        alone
          (record {
            engine = e;
            world = w;
            log = a.log ++ ev ∷ [];
            recorded = a.recorded ++ ev ∷ [];
          })
          (finished result))
  EndsAs start a j seq (panicked e w) =
      Steps start (alone (record a { engine = e; world = w }) (lost seq))
  EndsAs start a j seq (blocked e) = Steps start (alone (record a { engine = e }) (asleep j seq))

  module _ (j : Job W T) (t : Clock) where
    pub rejected-EndsAs :
        (a : Shared F H S W) (seq : ℕ) (r : OpResources F) (s : LimiterState)
        → get_resources j.ctx.op a.engine.resources ≡ some r
        → enter r.limiter.cap r.limiter.queue_cap r.limiter.state ≡ (rejected, s)
        → EndsAs (alone a (numbered j seq)) a j seq (
            returned
              (err (errno again_errno))
              (report j.ctx
                (event_of j.ctx seq error (some again_errno) 0 0 0 t)
                (set_limiter j.ctx.op r s a.engine))
              a.world)
    unfolding report emit_event record_event event_of set_limiter
    rejected-EndsAs a seq r s found e =
        let ev = event_of j.ctx seq error (some again_errno) 0 0 0 t in
        let result : Result FsError T = err (errno again_errno) in
        let a1 = set_state j.ctx.op r s a in
        let a2 = emit_event ev a1 in
        let a3 = record_event ev a2 in
        (
          ev,
          moved a a1 a3 (numbered j seq) (reporting false result ev) (finished result)
              (inner (is_rejected j seq r s t found e))
              (moved a1 a2 a3 (reporting false result ev) (recording false result ev)
                (finished result) (emits false result ev)
                (moved a2 a3 a3 (recording false result ev) (finished result) (finished result)
                  (records false result ev) stop)),
        )

    pub queues-EndsAs :
        (a : Shared F H S W) (seq : ℕ) (r : OpResources F) (s : LimiterState)
        → get_resources j.ctx.op a.engine.resources ≡ some r
        → enter r.limiter.cap r.limiter.queue_cap r.limiter.state ≡ (queues, s)
        → EndsAs (alone a (numbered j seq)) a j seq (blocked (set_limiter j.ctx.op r s a.engine))
    unfolding set_limiter
    queues-EndsAs a seq r s found e =
        let a1 = set_state j.ctx.op r s a in
        moved a a1 a1 (numbered j seq) (asleep j seq) (asleep j seq)
          (inner (queues_up j seq r s found e)) stop

    dropped_alone :
        (x : Shared F H S W) (y : OpResources F) (p q : Call W T)
        → get_resources j.ctx.op x.engine.resources ≡ some y
        → Drop j.ctx.op p q
        → Steps (alone x p) (alone (set_state j.ctx.op y (release y.limiter.state) x) q)
    dropped_alone x y p q found (closes result) =
        step {b = alone (set_state j.ctx.op y (release y.limiter.state) x) (finished result)}
          (drops [] [] (closing j.ctx.op result) (finished result) j.ctx.op y refl (closes result)
            refl found refl refl)
          stop
    dropped_alone x y p q found (unwinds seq) =
        step {b = alone (set_state j.ctx.op y (release y.limiter.state) x) (lost seq)}
          (drops [] [] (panicking j.ctx.op seq) (lost seq) j.ctx.op y refl (unwinds seq) refl found
            refl refl)
          stop

    module _ (a : Shared F H S W) (seq : ℕ) (r : OpResources F) (s : LimiterState)
        (found : get_resources j.ctx.op a.engine.resources ≡ some r)
        (entered : enter r.limiter.cap r.limiter.queue_cap r.limiter.state ≡ (admitted, s)) where
      a1 : Shared F H S W
      a1 = set_state j.ctx.op r s a

      a2 : Shared F H S W
      a2 = set_charged j.ctx t (holding_state s r) (set_state j.ctx.op r s a)

      pub overflows-EndsAs :
          checked_add (from_micros (latency_of (sampled a seq) j.ctx r)) (delay_of j.ctx t r) ≡ none
          → EndsAs
              (alone a (numbered j seq))
              a
              j
              seq
              (panicked (set_limiter j.ctx.op (charged j.ctx t r) (release s) a.engine) a.world)
      unfolding set_limiter latency_of delay_of select_tier large_tier a1 a2
      overflows-EndsAs over =
          moved a a1 _ (numbered j seq) (slotted j seq 0) (lost seq)
            (inner (is_admitted j seq r s found entered))
            (moved a1 a2 _ (slotted j seq 0) (panicking j.ctx.op seq) (lost seq)
              (inner (
                overflows j seq 0 (holding_state s r) t
                  (found_taken j.ctx t r s a.engine.resources found) over))
              (subst
                (λ table.
                  Steps (alone a2 (panicking j.ctx.op seq))
                    (alone (set_resources a2 table a.world) (lost seq)))
                (final_table j.ctx t r s a.engine.resources found)
                (dropped_alone a2 (charged j.ctx t (holding_state s r)) (panicking j.ctx.op seq)
                  (lost seq) (found_paid j.ctx t r s a.engine.resources found) (unwinds seq))))

      -- The event of a call that got its slot at once.
      abbrev done_event : Event
      done_event =
          event_of j.ctx seq
            (classify (execute (fault_of (sampled a seq) j.ctx r) j.body a.world).0).0
            (classify (execute (fault_of (sampled a seq) j.ctx r) j.body a.world).0).1 (as_micros 0)
            (latency_of (sampled a seq) j.ctx r) (as_micros (delay_of j.ctx t r)) t

      abbrev done_result : Result FsError T
      done_result = (execute (fault_of (sampled a seq) j.ctx r) j.body a.world).0

      a3 : Shared F H S W
      a3 =
          set_resources a2 a2.engine.resources
            (execute (fault_of (sampled a seq) j.ctx r) j.body a.world).1

      a5 : Shared F H S W
      a5 = record_event done_event (emit_event done_event a3)

      reports :
          Steps
            (alone a3 (reporting true done_result done_event))
            (alone a5 (closing j.ctx.op done_result))
      unfolding event_of a5
      reports =
          moved a3 (emit_event done_event a3) _ (reporting true done_result done_event)
            (recording true done_result done_event) (closing j.ctx.op done_result)
            (emits true done_result done_event)
            (moved (emit_event done_event a3) a5 _ (recording true done_result done_event)
              (closing j.ctx.op done_result) (closing j.ctx.op done_result)
              (records true done_result done_event) stop)

      gets_slot :
          (sleep_for : ℕ)
          → checked_add (from_micros (latency_of (sampled a seq) j.ctx r)) (delay_of j.ctx t r)
            ≡ some sleep_for
          → (b : Shared F H S W) → (q : Call W T)
          → Steps (alone a3 (reporting true done_result done_event)) (alone b q)
          → Steps (alone a (numbered j seq)) (alone b q)
      unfolding fault_of latency_of delay_of select_tier large_tier a1 a2 a3
      gets_slot sleep_for fits b q rest =
          let fault = fault_of (sampled a seq) j.ctx r in
          let latency = latency_of (sampled a seq) j.ctx r in
          let delay = delay_of j.ctx t r in
          let waits = delayed j seq fault 0 latency delay in
          moved a a1 b (numbered j seq) (slotted j seq 0) q
            (inner (is_admitted j seq r s found entered))
            (moved a1 a2 b (slotted j seq 0) waits q
              (inner (
                delays j seq 0 sleep_for (holding_state s r) t
                  (found_taken j.ctx t r s a.engine.resources found) fits))
              (moved a2 a3 b waits (reporting true done_result done_event) q
                (inner (executes j seq fault 0 latency delay t)) rest))

      pub delays-EndsAs :
          (sleep_for : ℕ)
          → checked_add (from_micros (latency_of (sampled a seq) j.ctx r)) (delay_of j.ctx t r)
            ≡ some sleep_for
          → EndsAs (alone a (numbered j seq)) a j seq (
              returned done_result
                (report j.ctx done_event
                  (set_limiter j.ctx.op (charged j.ctx t r) (release s) a.engine))
                (execute (fault_of (sampled a seq) j.ctx r) j.body a.world).1)
      unfolding set_limiter report event_of emit_event record_event a1 a2 a3 a5
      delays-EndsAs sleep_for fits = (
        done_event,
        gets_slot sleep_for fits _ (finished done_result) (
            joined reports (
              subst
                (λ table.
                  Steps (alone a5 (closing j.ctx.op done_result))
                    (alone (set_resources a5 table a5.world) (finished done_result)))
                (final_table j.ctx t r s a.engine.resources found)
                (dropped_alone a5 (charged j.ctx t (holding_state s r))
                  (closing j.ctx.op done_result) (finished done_result)
                  (found_paid j.ctx t r s a.engine.resources found) (closes done_result)))),
      )
