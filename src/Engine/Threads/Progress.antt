-- ===== src/Engine/Threads/Progress.antt =====
-- How far the calls of an engine are from their ends, and which of them can take a step.
use fusecraft_rs.Base.{
  ℕ, ◌<◌, ◌≡◌, ◌⊎◌, refl, ap, inl, inr, Bool, true, false, Bool-cases, Option-cases, List, [], ◌∷◌,
  ◌++◌, map, All, some, Result, arith,
}
use fusecraft_rs.Base.Word.{checked_add, from_micros}
use fusecraft_rs.Op.{FsOp}
use fusecraft_rs.Error.{Libc, FsError}
use fusecraft_rs.Float.{Float, Rng}
use fusecraft_rs.Limiter.Concurrency.{LimiterState, Entry, admitted, rejected, queues, enter}
use fusecraft_rs.Limiter.Concurrency.Threads.{Pc, outside, sleeping, holders, wakers}
use fusecraft_rs.Limiter.Concurrency.Threads as Limiter
use fusecraft_rs.Events.{EventSink}
use fusecraft_rs.Metrics.{Histogram}
use fusecraft_rs.Engine.{OpResources, get_resources}
use fusecraft_rs.Engine.Slot.{latency_of, delay_of}
use fusecraft_rs.Engine.Threads.{
  Job, Call, fresh, numbered, asleep, woken, slotted, delayed, reporting, recording, closing,
  finished, panicking, lost, Shared, sampled, CallMove, Drop, after_record, takes_number, inner,
  emits, records, closes, unwinds, is_admitted, is_rejected, queues_up, overflows, delays, executes,
}
use fusecraft_rs.Engine.Threads.Schedule.{Readings, IsMoveTimed}
use fusecraft_rs.Engine.Threads.Seen.{pick, pc}

-- At most so many steps separate a call from its end, wake-ups that nobody caused aside.
abbrev pub remaining : {W T : Type 0} → Call W T → ℕ
remaining (fresh _) = 9
remaining (numbered _ _) = 8
remaining (asleep _ _) = 7
remaining (woken _ _) = 6
remaining (slotted _ _ _) = 5
remaining (delayed _ _ _ _ _ _) = 4
remaining (reporting _ _ _) = 3
remaining (recording _ _ _) = 2
remaining (closing _ _) = 1
remaining (panicking _ _) = 1
remaining (finished _) = 0
remaining (lost _) = 0

-- A call that need not wait for another.
abbrev pub is_ready : {W T : Type 0} → Call W T → Bool
is_ready (asleep _ _) = false
is_ready (woken _ _) = false
is_ready (finished _) = false
is_ready (lost _) = false
is_ready _ = true

abbrev pub is_woken : {W T : Type 0} → Call W T → Bool
is_woken (woken _ _) = true
is_woken _ = false

-- The calls fail the test, or one that passes it stands among them.
pub find :
    {A : Type 0} (f : A → Bool) (xs : List A)
    → All (λ x. f x ≡ false) xs
      ⊎ ((l : List A) × (x : A) × (r : List A) × (xs ≡ l ++ (x ∷ r)) × (f x ≡ true))
find f [] = inl tt
find f (x ∷ xs) = elim (Bool-cases (f x)) [
  | inl passes ↦ inr ([], x, xs, refl, passes)
  | inr fails ↦ elim (find f xs) [
    | inl rest ↦ inl (fails, rest)
    | inr (l, y, r, e, passes) ↦ inr (x ∷ l, y, r, ap (λ ys. x ∷ ys) e, passes)
  ]
]

holders-pick : (op o : FsOp) (x : Pc) → holders x ≡ 0 → holders (pick op o x) ≡ 0
holders-pick op o x h = ground (arith, h)

wakers-pick : (op o : FsOp) (x : Pc) → wakers x ≡ 0 → wakers (pick op o x) ≡ 0
wakers-pick op o x h = ground (arith, h)

module _ {W T : Type 0} where
  -- A call that is not ready holds no slot; if it is not woken either, no limiter sees it awake.
  holders-idle : (o : FsOp) (p : Call W T) → is_ready p ≡ false → holders (pc o p) ≡ 0
  holders-idle o (asleep j seq) h = holders-pick j.ctx.op o (sleeping false) refl
  holders-idle o (woken j seq) h = holders-pick j.ctx.op o (Limiter.woken false) refl
  holders-idle o (finished result) h = refl
  holders-idle o (lost seq) h = refl
  holders-idle o (fresh j) h = cc h
  holders-idle o (numbered j seq) h = cc h
  holders-idle o (slotted j seq wait) h = cc h
  holders-idle o (delayed j seq fault wait latency delay) h = cc h
  holders-idle o (reporting held result ev) h = cc h
  holders-idle o (recording held result ev) h = cc h
  holders-idle o (closing op result) h = cc h
  holders-idle o (panicking op seq) h = cc h

  pub holders-total :
      (o : FsOp) (calls : List (Call W T))
      → All (λ p. is_ready p ≡ false) calls
      → Limiter.total holders (map (pc o) calls) ≡ 0
  holders-total o [] idle = refl
  holders-total o (p ∷ ps) (h, idle) = omega (arith, holders-idle o p h, holders-total o ps idle)

  wakers-idle :
      (o : FsOp) (p : Call W T) → is_ready p ≡ false → is_woken p ≡ false → wakers (pc o p) ≡ 0
  wakers-idle o (asleep j seq) h k = wakers-pick j.ctx.op o (sleeping false) refl
  wakers-idle o (woken j seq) h k = cc k
  wakers-idle o (finished result) h k = refl
  wakers-idle o (lost seq) h k = refl
  wakers-idle o (fresh j) h k = cc h
  wakers-idle o (numbered j seq) h k = cc h
  wakers-idle o (slotted j seq wait) h k = cc h
  wakers-idle o (delayed j seq fault wait latency delay) h k = cc h
  wakers-idle o (reporting held result ev) h k = cc h
  wakers-idle o (recording held result ev) h k = cc h
  wakers-idle o (closing op result) h k = cc h
  wakers-idle o (panicking op seq) h k = cc h

  pub wakers-total :
      (o : FsOp) (calls : List (Call W T))
      → All (λ p. is_ready p ≡ false) calls
      → All (λ p. is_woken p ≡ false) calls
      → Limiter.total wakers (map (pc o) calls) ≡ 0
  wakers-total o [] idle unwoken = refl
  wakers-total o (p ∷ ps) (h, idle) (k, unwoken) =
      omega (arith, wakers-idle o p h k, wakers-total o ps idle unwoken)

after_record-lt :
    (W : Type 0) {T : Type 0} (held : Bool) (op : FsOp) (result : Result FsError T)
    → remaining {W = W} (after_record held op result) < 2
after_record-lt W true op result = omega arith
after_record-lt W false op result = omega arith

module _ {F H S W T : Type 0} ⦃fl : Float F⦄ ⦃rng : Rng F⦄ ⦃libc : Libc⦄ ⦃histogram : Histogram H⦄
    ⦃sink : EventSink S⦄ where
  -- What a call that is ready does next: a step of its own towards its end, or the drop of its guard.
  pub data Next (a : Shared F H S W) (t : Readings) (p : Call W T) : Type 0 where
    moves :
        (b : Shared F H S W) (q : Call W T) (move : CallMove a p b q)
        → IsMoveTimed t move
        → remaining q < remaining p
        → Next a t p
    lets_go : (op : FsOp) (q : Call W T) → Drop op p q → remaining q < remaining p → Next a t p

  module _ (a : Shared F H S W) (t : Readings) where
    entry-Next :
        (j : Job W T) (seq : ℕ) (r : OpResources F) (x : Entry) (s : LimiterState)
        → get_resources j.ctx.op a.engine.resources ≡ some r
        → enter r.limiter.cap r.limiter.queue_cap r.limiter.state ≡ (x, s)
        → Next a t (numbered j seq)
    entry-Next j seq r admitted s found e =
        moves _ _ (inner (is_admitted j seq r s found e)) tt (omega arith)
    entry-Next j seq r rejected s found e =
        moves _ _ (inner (is_rejected j seq r s t.0 found e)) refl (omega arith)
    entry-Next j seq r queues s found e =
        moves _ _ (inner (queues_up j seq r s found e)) tt (omega arith)

    slot-Next :
        (j : Job W T) (seq wait : ℕ) (r : OpResources F)
        → get_resources j.ctx.op a.engine.resources ≡ some r
        → Next a t (slotted j seq wait)
    slot-Next j seq wait r found =
        elim (Option-cases
          (checked_add (from_micros (latency_of (sampled a seq) j.ctx r)) (delay_of j.ctx t.0 r))) [
            | inl over ↦
                moves _ _ (inner (overflows j seq wait r t.0 found over)) refl (omega arith)
            | inr (n, fits) ↦
                moves _ _ (inner (delays j seq wait n r t.0 found fits)) refl (omega arith)
          ]

    pub ready-Next :
        ((o : FsOp) → (r : OpResources F) × (get_resources o a.engine.resources ≡ some r))
        → (p : Call W T) → is_ready p ≡ true
        → Next a t p
    ready-Next found (fresh j) h = moves _ _ (takes_number j) tt (omega arith)
    ready-Next found (numbered j seq) h =
        let (r, e) = found j.ctx.op in
        entry-Next j seq r (enter r.limiter.cap r.limiter.queue_cap r.limiter.state).0
          (enter r.limiter.cap r.limiter.queue_cap r.limiter.state).1 e refl
    ready-Next found (slotted j seq wait) h =
        let (r, e) = found j.ctx.op in slot-Next j seq wait r e
    ready-Next found (delayed j seq fault wait latency delay) h =
        moves _ _ (inner (executes j seq fault wait latency delay t.0)) refl (omega arith)
    ready-Next found (reporting held result ev) h =
        moves _ _ (emits held result ev) tt (omega arith)
    ready-Next found (recording held result ev) h =
        moves _ _ (records held result ev) tt (after_record-lt W held ev.op result)
    ready-Next found (closing op result) h =
        lets_go op (finished result) (closes result) (omega arith)
    ready-Next found (panicking op seq) h = lets_go op (lost seq) (unwinds seq) (omega arith)
    ready-Next found (asleep j seq) h = cc h
    ready-Next found (woken j seq) h = cc h
    ready-Next found (finished result) h = cc h
    ready-Next found (lost seq) h = cc h
