-- ===== src/Engine/Threads/Account.antt =====
-- The account of the calls, in every state that threads can reach.
use fusecraft_rs.Base.{
  ℕ, ◌+◌, ◌<◌, ◌≤◌, ◌≡◌, refl, ap, sym, ◌∙◌, subst, Bool, true, ltb, List, [], ◌∷◌, ◌++◌, map,
  length, All, count, Result, arith,
}
use fusecraft_rs.Base.Word.{u64_mod}
use fusecraft_rs.Op.{all}
use fusecraft_rs.Error.{Libc, FsError}
use fusecraft_rs.Float.{Float, Rng}
use fusecraft_rs.Config.{Config}
use fusecraft_rs.Events.{Event, EventSink}
use fusecraft_rs.Metrics as Metrics
use fusecraft_rs.Metrics.{Histogram, summary}
use fusecraft_rs.Metrics.Laws.{lines_of, record_all, summary-record_all}
use fusecraft_rs.Engine.{new}
use fusecraft_rs.Engine.Session.Log.{
  emit_all, record_events, record_events-record_all, calls_before, length-calls_before,
}
use fusecraft_rs.Engine.Threads.{
  Job, Call, fresh, asleep, woken, finished, System, CallStep, Reach, total, one_if, own, drops,
  drops_and_wakes, begin, next,
}
use fusecraft_rs.Engine.Threads.Invariant.{
  total-replace, unbegun, has_seq, holds, unrecorded, unlogged, IsKept, IsAlike-IsKept,
  Drop-IsAlike, CallMove-IsKept,
}

module _ {W T : Type 0} where
  pub total-le :
      (w : Call W T → ℕ) (l r : List (Call W T)) (p : Call W T) → w p ≤ total w (l ++ (p ∷ r))
  total-le w [] r p = omega arith
  total-le w (x ∷ l) r p = omega (arith, total-le w l r p)

  -- A step of one call changes a total by what it changes of that call's weight.
  total-step :
      (w : Call W T → ℕ) {before after : List (Call W T)} (l r : List (Call W T)) (p q : Call W T)
      → before ≡ l ++ (p ∷ r)
      → after ≡ l ++ (q ∷ r)
      → total w after + w p ≡ total w before + w q
  total-step w l r p q h k = rw (h, k) (total-replace w l r p q)

  -- Fresh calls have not begun and have no event; they hold no number.
  fresh_lem :
      (jobs : List (Job W T))
      → (total unbegun (map fresh jobs) ≡ length jobs)
        × (total unlogged (map fresh jobs) ≡ length jobs)
        × ((n : ℕ) → total (holds n) (map fresh jobs) ≡ 0)
        × ((c : Event → Bool) → total (unrecorded c) (map fresh jobs) ≡ 0)
  fresh_lem [] = (refl, refl, λ n. refl, λ c. refl)
  fresh_lem (x ∷ xs) =
      let (a, b, c, d) = fresh_lem xs in
      (omega (arith, a), omega (arith, b), λ n. omega (arith, c n), λ t. omega (arith, d t))

  -- A call that has returned.
  abbrev pub IsFinished : Call W T → Type 0
  IsFinished p = (result : Result FsError T) × (p ≡ finished result)

  total_finished :
      (w : Call W T → ℕ) (calls : List (Call W T))
      → ((result : Result FsError T) → w (finished result) ≡ 0)
      → All IsFinished calls
      → total w calls ≡ 0
  total_finished w [] h over = refl
  total_finished w (p ∷ ps) h ((result, e), over) =
      omega (arith, h result, ap w e, total_finished w ps h over)

length-count : (evs : List Event) → count (λ ev. true) evs ≡ length evs
length-count [] = refl
length-count (ev ∷ evs) = omega (arith, length-count evs)

module _ {F H S W T : Type 0} ⦃fl : Float F⦄ ⦃rng : Rng F⦄ ⦃libc : Libc⦄ ⦃histogram : Histogram H⦄
    ⦃sink : EventSink S⦄ (c : Config F) (events : S) (now : ℕ) (world : W)
    (jobs : List (Job W T)) where
  -- Each call has begun or not; each number below the counter is held by one call or stands in the
  -- log; the log has the recorded events and those about to be recorded; the sink has the log, and
  -- the recorder the records.
  pub record IsAccounted (s : System F H S W T) : Type 0 where
    pub begun : s.shared.engine.seq + total unbegun s.calls ≡ length jobs
    pub numbers :
        (n : ℕ)
        → total (holds n) s.calls + count (has_seq n) s.shared.log
          ≡ one_if (ltb n s.shared.engine.seq)
    pub balance :
        (p : Event → Bool)
        → total (unrecorded p) s.calls + count p s.shared.recorded ≡ count p s.shared.log
    pub lengths : total unlogged s.calls + length s.shared.log ≡ length jobs
    pub logged : s.shared.engine.events ≡ emit_all events s.shared.log
    pub metered : s.shared.engine.metrics ≡ record_events Metrics.new s.shared.recorded

  begin-IsAccounted : IsAccounted (record {
    shared = record { engine = new c events now; world = world; log = []; recorded = [] };
    calls = map fresh jobs;
  })
  unfolding new
  begin-IsAccounted =
      let (a, b, d, e) = fresh_lem jobs in
      record {
        begun = omega (arith, a);
        numbers = λ n. ground (arith, d n);
        balance = λ p. omega (arith, e p);
        lengths = omega (arith, b);
        logged = refl;
        metered = refl;
      }

  -- One call replaced by another, with a step that keeps the counts.
  replace-IsAccounted :
      (a b : System F H S W T) (l r : List (Call W T)) (p q : Call W T)
      → IsAccounted a
      → a.calls ≡ l ++ (p ∷ r)
      → IsKept a.shared b.shared p q
      → b.calls ≡ l ++ (q ∷ r)
      → IsAccounted b
  replace-IsAccounted a b l r p q h here k there = record {
    begun = omega (arith, h.begun, k.begun, total-step unbegun l r p q here there);
    numbers = λ n. omega (arith, h.numbers n, k.numbers n, total-step (holds n) l r p q here there);
    balance =
        λ d. omega (arith, h.balance d, k.balance d, total-step (unrecorded d) l r p q here there);
    lengths = omega (arith, h.lengths, k.lengths, total-step unlogged l r p q here there);
    logged = k.logged events h.logged;
    metered = k.metered h.metered;
  }

  CallStep-IsAccounted :
      (a b : System F H S W T)
      → length jobs < u64_mod
      → IsAccounted a
      → CallStep a b
      → IsAccounted b
  CallStep-IsAccounted a b small h (own l r p q here m there) =
      let fits : a.shared.engine.seq + unbegun p < u64_mod = omega (
        arith,
        h.begun,
        subst (λ x. unbegun p ≤ total unbegun x) (sym here) (total-le unbegun l r p),
      ) in
      replace-IsAccounted a b l r p q h here (CallMove-IsKept a.shared b.shared p q fits m) there
  CallStep-IsAccounted a b small h (drops l r p q op x here d none_ found changed there) =
      replace-IsAccounted a b l r p q h here
        (IsAlike-IsKept a.shared b.shared p q _ _ changed (Drop-IsAlike op p q d)) there
  CallStep-IsAccounted a b small h
        (drops_and_wakes l r l' r' p q op x j seq here d same at_op found changed there) =
      let mid : System F H S W T = record { shared = b.shared; calls = l ++ (q ∷ r) } in
      let dropped : IsAccounted mid =
        replace-IsAccounted a mid l r p q h here
          (IsAlike-IsKept a.shared b.shared p q _ _ changed (Drop-IsAlike op p q d)) refl in
      replace-IsAccounted mid b l' r' (asleep j seq) (woken j seq) dropped same
        (IsAlike-IsKept b.shared b.shared (asleep j seq) (woken j seq) b.shared.engine.resources
          b.shared.world refl (refl, λ n. refl, λ t. refl, refl))
        there

  -- In every state that fewer than 2^64 calls can reach on a new engine, whatever the order of
  -- their steps: each number below the counter is held by exactly one call in flight or lost, or
  -- stands exactly once in the log, and no other number does; what is recorded and what is about
  -- to be recorded is the log, counted by any test; the sink has taken the log in order, and the
  -- recorder the records.
  pub Reach-IsAccounted :
      (s : System F H S W T)
      → length jobs < u64_mod
      → Reach c events now world jobs s
      → IsAccounted s
  Reach-IsAccounted s small (begin h) = subst IsAccounted (sym h) begin-IsAccounted
  Reach-IsAccounted s small (next {a} before step) =
      CallStep-IsAccounted a s small (Reach-IsAccounted a small before) step

  -- When fewer than 2^64 calls, interleaved in any way on a new engine, have all returned, the
  -- sink has taken one event for each, each sequence number from 0 on exactly once, and the
  -- summary has the lines of a list of records that agrees with the log on how many events pass
  -- any test.
  pub finished_log :
      (s : System F H S W T)
      → length jobs < u64_mod
      → Reach c events now world jobs s
      → All IsFinished s.calls
      → (log : List Event) × (recorded : List Event) × (s.shared.engine.events
          ≡ emit_all events log)
        × (length log ≡ length jobs)
        × ((n : ℕ) → count (has_seq n) log ≡ one_if (ltb n (length jobs)))
        × ((p : Event → Bool) → count p recorded ≡ count p log)
        × (summary s.shared.engine.metrics ≡ lines_of H (calls_before recorded []) all)
  unfolding Metrics.new record_all
  finished_log s small reached over =
      let h = Reach-IsAccounted s small reached in
      let log = s.shared.log in
      let recorded = s.shared.recorded in
      let balance : (p : Event → Bool) → count p recorded ≡ count p log = λ p.
        omega (arith, h.balance p, total_finished (unrecorded p) s.calls (λ result. refl) over) in
      let all_begun : s.shared.engine.seq ≡ length jobs =
        omega (arith, h.begun, total_finished unbegun s.calls (λ result. refl) over) in
      let logged_all : length log ≡ length jobs =
        omega (arith, h.lengths, total_finished unlogged s.calls (λ result. refl) over) in
      let recorded_all : length recorded ≡ length jobs =
        omega (arith, logged_all, balance (λ ev. true), length-count recorded, length-count log) in
      (
        log,
        recorded,
        h.logged,
        logged_all,
        (λ n.
            omega (arith, h.numbers n, total_finished (holds n) s.calls (λ result. refl) over)
            ∙ ap (λ i. one_if (ltb n i)) all_begun),
        balance,
        ap summary (h.metered ∙ record_events-record_all H recorded [])
            ∙ summary-record_all H (calls_before recorded [])
                (omega (arith, length-calls_before recorded [], recorded_all)),
      )
