-- ===== src/Engine/Threads/Invariant.antt =====
-- What every step of the calls keeps: the numbers, the log and the records.
use fusecraft_rs.Base.{
  ℕ, ◌+◌, ◌<◌, ◌≡◌, ◌==◌, refl, ap, sym, ◌∙◌, subst, Bool, true, false, ltb, List, [], ◌∷◌, ◌++◌,
  length, count, count-append, length-append, arith,
}
use fusecraft_rs.Base.Word.{u64_mod}
use fusecraft_rs.Op.{FsOp}
use fusecraft_rs.Error.{Libc}
use fusecraft_rs.Float.{Float, Rng}
use fusecraft_rs.Events.{Event, EventSink}
use fusecraft_rs.Metrics as Metrics
use fusecraft_rs.Metrics.{Histogram}
use fusecraft_rs.Engine.{OpResources}
use fusecraft_rs.Engine.Lifecycle.{event_of}
use fusecraft_rs.Engine.Session.Log.{emit_all, record_events, emit_all-append, record_events-append}
use fusecraft_rs.Engine.Threads.{
  Call, fresh, numbered, asleep, woken, slotted, delayed, reporting, recording, closing, finished,
  panicking, lost, Shared, set_resources, Inner, CallMove, Drop, total, one_if, takes_number, inner,
  emits, records, closes, unwinds, is_unregistered, is_admitted, is_rejected, queues_up, stirs,
  takes_slot, sleeps_on, overflows, delays, executes, fetch_add, emit_event, record_event,
}

module _ {W T : Type 0} where
  pub total-replace :
      (w : Call W T → ℕ) (l r : List (Call W T)) (p q : Call W T)
      → total w (l ++ (q ∷ r)) + w p ≡ total w (l ++ (p ∷ r)) + w q
  total-replace w [] r p q = omega arith
  total-replace w (x ∷ l) r p q = omega (arith, total-replace w l r p q)

  -- Calls that have not begun.
  abbrev pub unbegun : Call W T → ℕ
  unbegun (fresh _) = 1
  unbegun _ = 0

  -- Calls that hold the number `n` and whose event is not in the log: in flight, or ended in a panic.
  abbrev pub holds : ℕ → Call W T → ℕ
  holds n (numbered _ seq) = one_if (seq == n)
  holds n (asleep _ seq) = one_if (seq == n)
  holds n (woken _ seq) = one_if (seq == n)
  holds n (slotted _ seq _) = one_if (seq == n)
  holds n (delayed _ seq _ _ _ _) = one_if (seq == n)
  holds n (reporting _ _ ev) = one_if (ev.seq == n)
  holds n (panicking _ seq) = one_if (seq == n)
  holds n (lost seq) = one_if (seq == n)
  holds n _ = 0

  -- Calls whose event is in the log and not yet recorded, if it passes the test `p`.
  abbrev pub unrecorded : (Event → Bool) → Call W T → ℕ
  unrecorded p (recording _ _ ev) = one_if (p ev)
  unrecorded p _ = 0

  -- Calls whose event is not in the log.
  abbrev pub unlogged : Call W T → ℕ
  unlogged (recording _ _ _) = 0
  unlogged (closing _ _) = 0
  unlogged (finished _) = 0
  unlogged _ = 1

  -- Two calls that count the same.
  abbrev pub IsAlike : Call W T → Call W T → Type 0
  IsAlike p q =
      (unbegun q ≡ unbegun p)
      × ((n : ℕ) → holds n q ≡ holds n p)
      × ((c : Event → Bool) → unrecorded c q ≡ unrecorded c p)
      × (unlogged q ≡ unlogged p)

  pub Drop-IsAlike : (op : FsOp) (p q : Call W T) → Drop op p q → IsAlike p q
  Drop-IsAlike op p q (closes result) = (refl, λ n. refl, λ c. refl, refl)
  Drop-IsAlike op p q (unwinds seq) = (refl, λ n. refl, λ c. refl, refl)

abbrev pub has_seq : ℕ → Event → Bool
has_seq n ev = ev.seq == n

module _ {F H S W T : Type 0} ⦃fl : Float F⦄ ⦃rng : Rng F⦄ ⦃libc : Libc⦄ ⦃histogram : Histogram H⦄
    ⦃sink : EventSink S⦄ where
  -- A step between the number and the event changes the resources and the world alone.
  pub Inner-IsAlike :
      (a b : Shared F H S W) (p q : Call W T)
      → Inner a p b q
      → IsAlike p q
        × ((table : List (FsOp × OpResources F)) × (w : W) × (b ≡ set_resources a table w))
  unfolding event_of
  Inner-IsAlike a b p q (is_unregistered j seq h) =
      ((refl, λ n. refl, λ c. refl, refl), (_, _, refl))
  Inner-IsAlike a b p q (is_admitted j seq r s h e) =
      ((refl, λ n. refl, λ c. refl, refl), (_, _, refl))
  Inner-IsAlike a b p q (is_rejected j seq r s t h e) =
      ((refl, λ n. refl, λ c. refl, refl), (_, _, refl))
  Inner-IsAlike a b p q (queues_up j seq r s h e) =
      ((refl, λ n. refl, λ c. refl, refl), (_, _, refl))
  Inner-IsAlike a b p q (stirs j seq) = ((refl, λ n. refl, λ c. refl, refl), (_, _, refl))
  Inner-IsAlike a b p q (takes_slot j seq wait r h e) =
      ((refl, λ n. refl, λ c. refl, refl), (_, _, refl))
  Inner-IsAlike a b p q (sleeps_on j seq r h e) = ((refl, λ n. refl, λ c. refl, refl), (_, _, refl))
  Inner-IsAlike a b p q (overflows j seq wait r t h e) =
      ((refl, λ n. refl, λ c. refl, refl), (_, _, refl))
  Inner-IsAlike a b p q (delays j seq wait sleep_for r t h e) =
      ((refl, λ n. refl, λ c. refl, refl), (_, _, refl))
  Inner-IsAlike a b p q (executes j seq fault wait latency delay t) =
      ((refl, λ n. refl, λ c. refl, refl), (_, _, refl))

module _ {F H S W T : Type 0} ⦃histogram : Histogram H⦄ ⦃sink : EventSink S⦄ where
  -- What the step of one call, from `p` to `q`, does to the counts.
  pub record IsKept (a b : Shared F H S W) (p q : Call W T) : Type 0 where
    pub begun : b.engine.seq + unbegun q ≡ a.engine.seq + unbegun p
    pub numbers :
        (n : ℕ)
        → holds n q + count (has_seq n) b.log + one_if (ltb n a.engine.seq)
          ≡ holds n p + count (has_seq n) a.log + one_if (ltb n b.engine.seq)
    pub balance :
        (c : Event → Bool)
        → unrecorded c q + count c b.recorded + count c a.log
          ≡ unrecorded c p + count c a.recorded + count c b.log
    pub lengths : unlogged q + length b.log ≡ unlogged p + length a.log
    pub logged :
        (events : S)
        → a.engine.events ≡ emit_all events a.log
        → b.engine.events ≡ emit_all events b.log
    pub metered :
        a.engine.metrics ≡ record_events Metrics.new a.recorded
        → b.engine.metrics ≡ record_events Metrics.new b.recorded

  set_resources-IsKept :
      (a : Shared F H S W) (p q : Call W T) (table : List (FsOp × OpResources F)) (w : W)
      → IsAlike p q
      → IsKept a (set_resources a table w) p q
  set_resources-IsKept a p q table w (begun, numbers, balance, lengths) = record {
    begun = omega (arith, begun);
    numbers = λ n. omega (arith, numbers n);
    balance = λ c. omega (arith, balance c);
    lengths = omega (arith, lengths);
    logged = λ events h. h;
    metered = λ h. h;
  }

  pub IsAlike-IsKept :
      (a b : Shared F H S W) (p q : Call W T) (table : List (FsOp × OpResources F)) (w : W)
      → b ≡ set_resources a table w
      → IsAlike p q
      → IsKept a b p q
  IsAlike-IsKept a b p q table w e alike =
      subst (λ z. IsKept a z p q) (sym e) (set_resources-IsKept a p q table w alike)

module _ {F H S W T : Type 0} ⦃fl : Float F⦄ ⦃rng : Rng F⦄ ⦃libc : Libc⦄ ⦃histogram : Histogram H⦄
    ⦃sink : EventSink S⦄ where
  pub CallMove-IsKept :
      (a b : Shared F H S W) (p q : Call W T)
      → a.engine.seq + unbegun p < u64_mod
      → CallMove a p b q
      → IsKept a b p q
  unfolding fetch_add emit_event record_event
  CallMove-IsKept a b p q small (takes_number j) = record {
    begun = omega arith;
    numbers = λ n. ground arith;
    balance = λ c. omega arith;
    lengths = refl;
    logged = λ events h. h;
    metered = λ h. h;
  }
  CallMove-IsKept a b p q small (inner m) =
      let (alike, (table, w, e)) = Inner-IsAlike a b p q m in IsAlike-IsKept a b p q table w e alike
  CallMove-IsKept a b p q small (emits held result ev) = record {
    begun = refl;
    numbers = λ n. omega (arith, count-append (has_seq n) a.log (ev ∷ []));
    balance = λ c. omega (arith, count-append c a.log (ev ∷ []));
    lengths = omega (arith, length-append a.log (ev ∷ []));
    logged = λ events h. ap (λ s. sink.emit s ev) h ∙ sym (emit_all-append events a.log (ev ∷ []));
    metered = λ h. h;
  }
  CallMove-IsKept a b p q small (records true result ev) = record {
    begun = refl;
    numbers = λ n. refl;
    balance = λ c. omega (arith, count-append c a.recorded (ev ∷ []));
    lengths = refl;
    logged = λ events h. h;
    metered = λ h.
        ap (λ m. record_events m (ev ∷ [])) h
        ∙ sym (record_events-append Metrics.new a.recorded (ev ∷ []));
  }
  CallMove-IsKept a b p q small (records false result ev) = record {
    begun = refl;
    numbers = λ n. refl;
    balance = λ c. omega (arith, count-append c a.recorded (ev ∷ []));
    lengths = refl;
    logged = λ events h. h;
    metered = λ h.
        ap (λ m. record_events m (ev ∷ [])) h
        ∙ sym (record_events-append Metrics.new a.recorded (ev ∷ []));
  }
