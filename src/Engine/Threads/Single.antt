-- ===== src/Engine/Threads/Single.antt =====
-- `run_op` called while no other call is under way, whatever state it finds.
use fusecraft_rs.Base.{ℕ, ◌≡◌, refl, Option-cases, inl, inr, [], Option, none, some}
use fusecraft_rs.Base.Word.{checked_add, from_micros}
use fusecraft_rs.Error.{Libc}
use fusecraft_rs.Float.{Float, Rng}
use fusecraft_rs.Limiter.Concurrency.{
  LimiterState, Entry, admitted, rejected, queues, enter, wait_loop, after_entry, acquire,
}
use fusecraft_rs.Events.{EventSink}
use fusecraft_rs.Metrics.{Histogram}
use fusecraft_rs.Engine.{OpResources, Clock, Run, returned, panicked, blocked, get_resources}
use fusecraft_rs.Engine.Lifecycle.{
  complete, after_sum, with_slot, after_acquire, with_resources, run_op,
}
use fusecraft_rs.Engine.Slot.{latency_of, delay_of, fault_of}
use fusecraft_rs.Engine.Threads.{
  Job, fresh, numbered, asleep, finished, lost, Shared, sampled, takes_number, inner,
  is_unregistered, fetch_add,
}
use fusecraft_rs.Engine.Threads.Alone.{
  stop, alone, moved, EndsAs, rejected-EndsAs, queues-EndsAs, overflows-EndsAs, delays-EndsAs,
}

module _ {F H S W T : Type 0} ⦃fl : Float F⦄ ⦃rng : Rng F⦄ ⦃libc : Libc⦄ ⦃histogram : Histogram H⦄
    ⦃sink : EventSink S⦄ where
  module _ (j : Job W T) (t : Clock) (a : Shared F H S W) (seq : ℕ) where
    slot-EndsAs :
        (r : OpResources F) (s : LimiterState)
        → get_resources j.ctx.op a.engine.resources ≡ some r
        → enter r.limiter.cap r.limiter.queue_cap r.limiter.state ≡ (admitted, s)
        → EndsAs
            (alone a (numbered j seq))
            a
            j
            seq
            (with_slot j.ctx seq 0 s t j.body r a.engine a.world)
    unfolding with_slot after_sum complete latency_of delay_of fault_of
    slot-EndsAs r s found e =
        elim (Option-cases
          (checked_add (from_micros (latency_of (sampled a seq) j.ctx r)) (delay_of j.ctx t r))) [
            | inl over ↦ rw over (overflows-EndsAs j t a seq r s found e over)
            | inr (sleep_for, fits) ↦ rw fits (delays-EndsAs j t a seq r s found e sleep_for fits)
          ]

    entry-EndsAs :
        (r : OpResources F) (x : Entry) (s : LimiterState)
        → get_resources j.ctx.op a.engine.resources ≡ some r
        → enter r.limiter.cap r.limiter.queue_cap r.limiter.state ≡ (x, s)
        → EndsAs (alone a (numbered j seq)) a j seq (
            after_acquire j.ctx seq t j.body r
              (after_entry (x, s) (wait_loop r.limiter.cap []))
              a.engine
              a.world)
    unfolding after_acquire after_entry wait_loop
    entry-EndsAs r admitted s found e = slot-EndsAs r s found e
    entry-EndsAs r rejected s found e = rejected-EndsAs j t a seq r s found e
    entry-EndsAs r queues s found e = rw e (queues-EndsAs j t a seq r s found e)

    numbered-EndsAs :
        t.wakes ≡ []
        → (x : Option (OpResources F)) → get_resources j.ctx.op a.engine.resources ≡ x
        → EndsAs
            (alone a (numbered j seq))
            a
            j
            seq
            (with_resources j.ctx seq t j.body x a.engine a.world)
    unfolding with_resources acquire
    numbered-EndsAs nobody none missing =
        moved a a a (numbered j seq) (lost seq) (lost seq) (inner (is_unregistered j seq missing))
          stop
    numbered-EndsAs nobody (some r) found = rw nobody (
        entry-EndsAs r (enter r.limiter.cap r.limiter.queue_cap r.limiter.state).0
          (enter r.limiter.cap r.limiter.queue_cap r.limiter.state).1 found refl)

    numbered_first :
        (run : Run F H S W T)
        → EndsAs (alone (fetch_add a) (numbered j a.engine.seq)) (fetch_add a) j a.engine.seq run
        → EndsAs (alone a (fresh j)) a j a.engine.seq run
    unfolding fetch_add
    numbered_first (returned result e w) (ev, steps) = (
      ev,
      moved a (fetch_add a) _ (fresh j) (numbered j a.engine.seq) (finished result) (takes_number j)
          steps,
    )
    numbered_first (panicked e w) steps =
        moved a (fetch_add a) _ (fresh j) (numbered j a.engine.seq) (lost a.engine.seq)
          (takes_number j) steps
    numbered_first (blocked e) steps =
        moved a (fetch_add a) _ (fresh j) (numbered j a.engine.seq) (asleep j a.engine.seq)
          (takes_number j) steps

  -- `run_op`, called while no other call is under way, in any state of the engine, is a sequence
  -- of the steps of Threads that no other call divides: if it returns, they end with its result,
  -- its engine and its world, and one event is emitted and recorded; if it panics, they end with
  -- the call lost; if it waits, they end with the call asleep in the queue; each time with the
  -- engine that `run_op` leaves. The wake-ups given to `run_op` are none, since nobody is there
  -- to wake it.
  pub run_op-Steps :
      (j : Job W T) (t : Clock) (a : Shared F H S W)
      → t.wakes ≡ []
      → EndsAs (alone a (fresh j)) a j a.engine.seq (run_op j.ctx t j.body a.engine a.world)
  unfolding run_op fetch_add
  run_op-Steps j t a nobody =
      numbered_first j t a a.engine.seq (run_op j.ctx t j.body a.engine a.world) (
        numbered-EndsAs j t (fetch_add a) a.engine.seq nobody
          (get_resources j.ctx.op a.engine.resources) refl)
