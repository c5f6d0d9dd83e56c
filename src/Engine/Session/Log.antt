-- ===== src/Engine/Session/Log.antt =====
-- The log of a session, its numbers, and the metrics that go with it.
use fusecraft_rs.Base.{
  ℕ, ◌+◌, ◌<◌, ◌≤◌, ◌≡◌, refl, ap, sym, ◌∙◌, subst, List, [], ◌∷◌, ◌++◌, length, arith,
  length-append,
}
use fusecraft_rs.Base.Word.{u64_mod}
use fusecraft_rs.Error.{Libc}
use fusecraft_rs.Float.{Float, Rng}
use fusecraft_rs.Events.{Event, EventSink}
use fusecraft_rs.Op.{all}
use fusecraft_rs.Config.{Config}
use fusecraft_rs.Metrics.{Histogram, HistogramRecorder, record_op, summary}
use fusecraft_rs.Metrics.Laws.{Call, record_all, lines_of, summary-record_all}
use fusecraft_rs.Engine.{SimEngine, Run, returned, panicked, blocked, new}
use fusecraft_rs.Engine.Lifecycle.{run_op, is_error}
use fusecraft_rs.Engine.Laws.{IsReported, run_op-IsReported}
use fusecraft_rs.Engine.Session.{Request, after, run_all}

-- The events of a log with the oldest first, emitted one by one.
abbrev pub emit_all : {S : Type 0} ⦃sink : EventSink S⦄ → S → List Event → S
emit_all s [] = s
emit_all ⦃sink = sink⦄ s (ev ∷ evs) = emit_all (sink.emit s ev) evs

-- The durations of a log, recorded one by one.
abbrev pub record_events :
    {H : Type 0} ⦃histogram : Histogram H⦄ → HistogramRecorder H → List Event → HistogramRecorder H
record_events m [] = m
record_events m (ev ∷ evs) =
    record_events (record_op m ev.op ev.total_duration_us (is_error ev.outcome)) evs

-- What a log says of a call for the metrics.
abbrev pub call_of : Event → Call
call_of ev = record {
  op = ev.op;
  duration_us = ev.total_duration_us;
  is_error = is_error ev.outcome;
}

-- The calls that the events of a log report, put before other calls, the newest first.
abbrev pub calls_before : List Event → List Call → List Call
calls_before [] calls = calls
calls_before (ev ∷ evs) calls = calls_before evs (call_of ev ∷ calls)

-- The numbers of a log rise strictly, from `lo` up to below `hi`.
abbrev pub IsNumbered : ℕ → List Event → ℕ → Type 0
IsNumbered lo [] hi = lo ≤ hi
IsNumbered lo (ev ∷ evs) hi = (lo ≤ ev.seq) × IsNumbered (ev.seq + 1) evs hi

IsNumbered-append :
    (lo mid hi : ℕ) (xs ys : List Event)
    → IsNumbered lo xs mid
    → IsNumbered mid ys hi
    → IsNumbered lo (xs ++ ys) hi
IsNumbered-append lo mid hi [] [] h n = omega arith
IsNumbered-append lo mid hi [] (ev ∷ ys) h n = (omega arith, n.1)
IsNumbered-append lo mid hi (ev ∷ xs) ys h n =
    (h.0, IsNumbered-append (ev.seq + 1) mid hi xs ys h.1 n)

pub emit_all-append :
    {S : Type 0} ⦃sink : EventSink S⦄ (s : S) (xs ys : List Event)
    → emit_all s (xs ++ ys) ≡ emit_all (emit_all s xs) ys
emit_all-append s [] ys = refl
emit_all-append ⦃sink = sink⦄ s (ev ∷ xs) ys = emit_all-append (sink.emit s ev) xs ys

pub record_events-append :
    {H : Type 0} ⦃histogram : Histogram H⦄ (m : HistogramRecorder H) (xs ys : List Event)
    → record_events m (xs ++ ys) ≡ record_events (record_events m xs) ys
record_events-append m [] ys = refl
record_events-append m (ev ∷ xs) ys =
    record_events-append (record_op m ev.op ev.total_duration_us (is_error ev.outcome)) xs ys

pub record_events-record_all :
    (H : Type 0) ⦃histogram : Histogram H⦄ (evs : List Event) (calls : List Call)
    → record_events (record_all {H = H} calls) evs ≡ record_all (calls_before evs calls)
unfolding record_all
record_events-record_all H [] calls = refl
record_events-record_all H (ev ∷ evs) calls = record_events-record_all H evs (call_of ev ∷ calls)

pub length-calls_before :
    (evs : List Event) (calls : List Call)
    → length (calls_before evs calls) ≡ length evs + length calls
length-calls_before [] calls = omega arith
length-calls_before (ev ∷ evs) calls = omega (arith, length-calls_before evs (call_of ev ∷ calls))

-- What calls add to an engine: events, numbered in order, the same durations, and `n` numbers.
pub record IsLog {F H S : Type 0} ⦃histogram : Histogram H⦄ ⦃sink : EventSink S⦄
    (e : SimEngine F H S) (n : ℕ) (e' : SimEngine F H S) (evs : List Event) : Type 0 where
  pub logged : e'.events ≡ emit_all e.events evs
  pub recorded : e'.metrics ≡ record_events e.metrics evs
  pub numbered : IsNumbered e.seq evs (e.seq + n)
  pub next : e'.seq ≡ e.seq + n
  pub short : length evs ≤ n

IsLog-append :
    {F H S : Type 0} ⦃histogram : Histogram H⦄ ⦃sink : EventSink S⦄ {a b c : SimEngine F H S}
    {n k : ℕ} (xs ys : List Event)
    → IsLog a n b xs
    → IsLog b k c ys
    → IsLog a (n + k) c (xs ++ ys)
IsLog-append {a} {b} {c} {n} {k} xs ys p q = record {
  logged = q.logged ∙ ap (λ s. emit_all s ys) p.logged ∙ sym (emit_all-append a.events xs ys);
  recorded =
      q.recorded
      ∙ ap (λ m. record_events m ys) p.recorded
      ∙ sym (record_events-append a.metrics xs ys);
  numbered = IsNumbered-append a.seq (a.seq + n) (a.seq + (n + k)) xs ys p.numbered (
      subst (λ i. IsNumbered i ys (a.seq + (n + k))) p.next
        (subst (λ i. IsNumbered b.seq ys i) (omega (arith, p.next)) q.numbered));
  next = omega (arith, p.next, q.next);
  short = omega (arith, p.short, q.short, length-append xs ys);
}

run-IsLog :
    {F H S W T : Type 0} ⦃fl : Float F⦄ ⦃rng : Rng F⦄ ⦃libc : Libc⦄ ⦃histogram : Histogram H⦄
    ⦃sink : EventSink S⦄ (r : Request W T) (e : SimEngine F H S) (run : Run F H S W T)
    → e.seq + 1 < u64_mod
    → IsReported r.ctx e r.world run
    → (evs : List Event) × IsLog e 1 (after run) evs
unfolding after
run-IsLog r e (returned result e' w') small
      (next, (ev, logged, recorded, res, seq, op, ino, offset, len)) =
    (
      ev ∷ [],
      record {
        logged = logged;
        recorded =
            recorded
            ∙ ap (λ o. record_op e.metrics o ev.total_duration_us (is_error ev.outcome)) (sym op);
        numbered = omega arith;
        next = omega arith;
        short = omega arith;
      },
    )
run-IsLog r e (panicked e' w') small (next, logged, recorded, same) = (
  [],
  record {
    logged = logged;
    recorded = recorded;
    numbered = omega arith;
    next = omega arith;
    short = omega arith;
  },
)
run-IsLog r e (blocked e') small (next, logged, recorded) = (
  [],
  record {
    logged = logged;
    recorded = recorded;
    numbered = omega arith;
    next = omega arith;
    short = omega arith;
  },
)

module _ {F H S W T : Type 0} ⦃fl : Float F⦄ ⦃rng : Rng F⦄ ⦃libc : Libc⦄ ⦃histogram : Histogram H⦄
    ⦃sink : EventSink S⦄ where
  pub run_all-IsLog :
      (rs : List (Request W T)) (e : SimEngine F H S)
      → e.seq + length rs < u64_mod
      → (evs : List Event) × IsLog e (length rs) (run_all rs e) evs
  unfolding run_all
  run_all-IsLog [] e small = (
    [],
    record {
      logged = refl;
      recorded = refl;
      numbered = omega arith;
      next = omega arith;
      short = omega arith;
    },
  )
  run_all-IsLog (r ∷ rs) e small =
      let e1 = after (run_op r.ctx r.clock r.body e r.world) in
      let (xs, first) =
        run-IsLog r e (run_op r.ctx r.clock r.body e r.world) (omega arith)
          (run_op-IsReported r.ctx r.clock r.body e r.world) in
      let (ys, rest) = run_all-IsLog rs e1 (omega (arith, first.next)) in
      (
        xs ++ ys,
        subst (λ n. IsLog e n (run_all rs e1) (xs ++ ys)) (omega arith)
            (IsLog-append xs ys first rest),
      )

module _ {F S W T : Type 0} (H : Type 0) ⦃fl : Float F⦄ ⦃rng : Rng F⦄ ⦃libc : Libc⦄
    ⦃histogram : Histogram H⦄ ⦃sink : EventSink S⦄ (rs : List (Request W T)) (c : Config F)
    (events : S) (now : ℕ) where
  abbrev pub session : SimEngine F H S
  session = run_all rs (new c events now)

  new-metrics : (new {H = H} c events now).metrics ≡ record_all []
  unfolding new record_all
  new-metrics = refl

  new-seq : (new {H = H} c events now).seq ≡ 0
  unfolding new
  new-seq = refl

  new-events : (new {H = H} c events now).events ≡ events
  unfolding new
  new-events = refl

  -- After fewer than 2^64 calls, one after the other on a new engine, however each of them ends,
  -- the sink has taken a list of events whose sequence numbers increase and are below the number
  -- of calls, and the summary of the metrics has the lines of exactly these events: their number,
  -- their errors and their percentiles by kind.
  pub summary-log :
      length rs < u64_mod
      → (evs : List Event) × (session.events ≡ emit_all events evs)
        × IsNumbered 0 evs (length rs)
        × (summary session.metrics ≡ lines_of H (calls_before evs []) all)
  summary-log small =
      let (evs, log) = run_all-IsLog rs (new {H = H} c events now) (omega (arith, new-seq)) in
      (
        evs,
        log.logged ∙ ap (λ s. emit_all s evs) new-events,
        subst (λ i. IsNumbered i evs (length rs)) new-seq
            (subst (λ i. IsNumbered (new {H = H} c events now).seq evs i) (omega (arith, new-seq))
              log.numbered),
        ap summary (
              log.recorded
              ∙ ap (λ m. record_events m evs) new-metrics
              ∙ record_events-record_all H evs [])
            ∙ summary-record_all H (calls_before evs [])
                (omega (arith, length-calls_before evs [], log.short)),
      )
