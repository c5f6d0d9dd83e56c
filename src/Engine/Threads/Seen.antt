-- ===== src/Engine/Threads/Seen.antt =====
-- The step of a call as the limiter of an operation sees it: a move of one of its threads, or nothing.
use fusecraft_rs.Base.{
  ◌≤◌, ◌≡◌, ◌⊎◌, inl, inr, refl, ap, sym, ◌∙◌, subst, Bool, true, false, Bool-cases, if◌then◌else◌,
  List, some, arith,
}
use fusecraft_rs.Op.{FsOp, op_eq}
use fusecraft_rs.Op.Laws.{op_eq_iff}
use fusecraft_rs.Error.{Libc}
use fusecraft_rs.Float.{Float, Rng}
use fusecraft_rs.Limiter.Concurrency.{BlockingLimiter}
use fusecraft_rs.Limiter.Concurrency.Threads.{
  Pc, outside, holding, sleeping, Move, Step, all_outside, admits, refuses, waits, takes, sleeps,
}
use fusecraft_rs.Limiter.Concurrency.Threads as Limiter
use fusecraft_rs.Events.{EventSink}
use fusecraft_rs.Metrics.{Histogram}
use fusecraft_rs.Engine.{
  OpContext, Clock, is_large, OpResources, get_resources, put_resources, put_bandwidth,
}
use fusecraft_rs.Engine.Resources.{get-put}
use fusecraft_rs.Engine.Lifecycle.{event_of, set_limiter}
use fusecraft_rs.Engine.Threads.{
  Call, fresh, numbered, asleep, woken, slotted, delayed, reporting, recording, closing, panicking,
  Shared, charged, Inner, CallMove, takes_number, inner, emits, records, is_unregistered,
  is_admitted, is_rejected, queues_up, stirs, takes_slot, sleeps_on, overflows, delays, executes,
  fetch_add, emit_event, record_event,
}

-- Where a call of the operation `op` stands is seen by the limiter of `o` only if they are the same.
abbrev pub pick : FsOp → FsOp → Pc → Pc
pick op o x = if op_eq op o then x else outside

pub pick_outside : (op o : FsOp) → pick op o outside ≡ outside
pick_outside op o = elim (Bool-cases (op_eq op o)) [ inl h ↦ rw h refl | inr h ↦ rw h refl ]

abbrev pub guarded : Bool → Pc
guarded true = holding
guarded false = outside

module _ {W T : Type 0} where
  -- Where a call stands as a thread of the limiter of `o`.
  abbrev pub pc : FsOp → Call W T → Pc
  pc o (fresh j) = pick j.ctx.op o outside
  pc o (numbered j _) = pick j.ctx.op o outside
  pc o (asleep j _) = pick j.ctx.op o (sleeping false)
  pc o (woken j _) = pick j.ctx.op o (Limiter.woken false)
  pc o (slotted j _ _) = pick j.ctx.op o holding
  pc o (delayed j _ _ _ _ _) = pick j.ctx.op o holding
  pc o (reporting held _ ev) = pick ev.op o (guarded held)
  pc o (recording held _ ev) = pick ev.op o (guarded held)
  pc o (closing op _) = pick op o holding
  pc o (panicking op _) = pick op o holding
  pc o _ = outside

-- What a step of a call does to the limiter of `o`: a move of that limiter, or nothing.
pub record IsSeen (r r' : BlockingLimiter) (p q : Pc) : Type 0 where
  pub cap : r'.cap ≡ r.cap
  pub queue_cap : r'.queue_cap ≡ r.queue_cap
  pub moves : Move r.cap r.queue_cap r.state p r'.state q ⊎ ((r'.state ≡ r.state) × (q ≡ p))

abbrev pub Seen :
    {F : Type 0}
    → FsOp
    → List (FsOp × OpResources F)
    → List (FsOp × OpResources F)
    → Pc
    → Pc
    → Type 0
Seen {F} o before after p q =
    (r : OpResources F)
    → get_resources o before ≡ some r
    → (r' : OpResources F) × (get_resources o after ≡ some r') × IsSeen r.limiter r'.limiter p q

still : (l : BlockingLimiter) (p : Pc) → IsSeen l l p p
still l p = record { cap = refl; queue_cap = refl; moves = inr (refl, refl) }

pub some-injective : {A : Type 0} {x y : A} → some x ≡ some y → x ≡ y
some-injective h = ground (arith, h)

module _ {F : Type 0} where
  unseen : (o : FsOp) (table : List (FsOp × OpResources F)) (p : Pc) → Seen o table table p p
  unseen o table p r h = (r, h, still r.limiter p)

  pub same_resources :
      (op o : FsOp) (table : List (FsOp × OpResources F)) (r x : OpResources F)
      → op_eq op o ≡ true
      → get_resources op table ≡ some x
      → get_resources o table ≡ some r
      → x ≡ r
  same_resources op o table r x same found h =
      let e = (op_eq_iff op o).0 same in
      let k : get_resources o table ≡ some x = ap (λ z. get_resources z table) (sym e) ∙ found in
      ground (arith, k, h)

  -- A change of the resources of `op`, as the limiter of `o` sees it.
  put-Seen :
      (op o : FsOp) (table : List (FsOp × OpResources F)) (x x' : OpResources F) (p q : Pc)
      → get_resources op table ≡ some x
      → IsSeen x.limiter x'.limiter p q
      → Seen o table (put_resources op x' table) (pick op o p) (pick op o q)
  put-Seen op o table x x' p q found seen r h =
      let after = get-put op o x x' table found in
      elim (Bool-cases (op_eq op o)) [
        | inl same ↦
            let e = same_resources op o table r x same found h in
            rw same (x', after ∙ rw same refl, subst (λ z. IsSeen z.limiter x'.limiter p q) e seen)
        | inr other ↦ rw other (r, after ∙ rw other h, still r.limiter outside)
      ]

  -- A move of the limiter of `op` that leaves its state alone.
  keep-Seen :
      (op o : FsOp) (table : List (FsOp × OpResources F)) (p q : Pc)
      → ((x : OpResources F)
          → get_resources op table ≡ some x
          → Move x.limiter.cap x.limiter.queue_cap x.limiter.state p x.limiter.state q)
      → Seen o table table (pick op o p) (pick op o q)
  keep-Seen op o table p q m r h = elim (Bool-cases (op_eq op o)) [
    | inl same ↦
        let k : get_resources op table ≡ some r =
          ap (λ z. get_resources z table) ((op_eq_iff op o).0 same) ∙ h in
        rw same (r, h, record { cap = refl; queue_cap = refl; moves = inl (m r k) })
    | inr other ↦ rw other (r, h, still r.limiter outside)
  ]

  gone :
      (op o : FsOp) (table : List (FsOp × OpResources F))
      → Seen o table table (pick op o outside) outside
  gone op o table =
      subst (Seen o table table (pick op o outside)) (pick_outside op o)
        (unseen o table (pick op o outside))

-- What is charged is not the limiter.
charged_keeps :
    {F : Type 0} ⦃fl : Float F⦄ (ctx : OpContext) (t : Clock) (r : OpResources F)
    → (charged ctx t r).limiter ≡ r.limiter
unfolding put_bandwidth
charged_keeps ctx t r = elim (Bool-cases (is_large r ctx.op ctx.requested_len)) [
  | inl h ↦ rw h refl
  | inr h ↦ rw h refl
]

module _ {F H S W T : Type 0} ⦃fl : Float F⦄ ⦃rng : Rng F⦄ ⦃libc : Libc⦄ where
  Inner-Seen :
      (o : FsOp) (a b : Shared F H S W) (p q : Call W T)
      → Inner a p b q
      → Seen o a.engine.resources b.engine.resources (pc o p) (pc o q)
  unfolding event_of set_limiter
  Inner-Seen o a b p q (is_unregistered j seq h) = gone j.ctx.op o a.engine.resources
  Inner-Seen o a b p q (is_admitted j seq r s h e) =
      put-Seen j.ctx.op o a.engine.resources r _ outside holding h
        (record { cap = refl; queue_cap = refl; moves = inl (admits e) })
  Inner-Seen o a b p q (is_rejected j seq r s t h e) =
      put-Seen j.ctx.op o a.engine.resources r _ outside outside h
        (record { cap = refl; queue_cap = refl; moves = inl (refuses e) })
  Inner-Seen o a b p q (queues_up j seq r s h e) =
      put-Seen j.ctx.op o a.engine.resources r _ outside (sleeping false) h
        (record { cap = refl; queue_cap = refl; moves = inl (waits false e) })
  Inner-Seen o a b p q (stirs j seq) =
      keep-Seen j.ctx.op o a.engine.resources (sleeping false) (Limiter.woken false)
        (λ x h. Limiter.stirs false)
  Inner-Seen o a b p q (takes_slot j seq wait r h free) =
      put-Seen j.ctx.op o a.engine.resources r _ (Limiter.woken false) holding h
        (record { cap = refl; queue_cap = refl; moves = inl (takes wait free) })
  Inner-Seen o a b p q (sleeps_on j seq r h full) =
      keep-Seen j.ctx.op o a.engine.resources (Limiter.woken false) (sleeping false) (λ x k.
        sleeps false
          (subst (λ z. z.limiter.cap ≤ z.limiter.state.inflight) (some-injective (sym h ∙ k)) full))
  Inner-Seen o a b p q (overflows j seq wait r t h e) =
      put-Seen j.ctx.op o a.engine.resources r (charged j.ctx t r) holding holding h (
        subst (λ l. IsSeen r.limiter l holding holding) (sym (charged_keeps j.ctx t r))
          (still r.limiter holding))
  Inner-Seen o a b p q (delays j seq wait sleep_for r t h e) =
      put-Seen j.ctx.op o a.engine.resources r (charged j.ctx t r) holding holding h (
        subst (λ l. IsSeen r.limiter l holding holding) (sym (charged_keeps j.ctx t r))
          (still r.limiter holding))
  Inner-Seen o a b p q (executes j seq fault wait latency delay t) =
      unseen o a.engine.resources (pick j.ctx.op o holding)

module _ {F H S W T : Type 0} ⦃fl : Float F⦄ ⦃rng : Rng F⦄ ⦃libc : Libc⦄ ⦃histogram : Histogram H⦄
    ⦃sink : EventSink S⦄ where
  pub CallMove-Seen :
      (o : FsOp) (a b : Shared F H S W) (p q : Call W T)
      → CallMove a p b q
      → Seen o a.engine.resources b.engine.resources (pc o p) (pc o q)
  unfolding fetch_add emit_event record_event
  CallMove-Seen o a b p q (takes_number j) = unseen o a.engine.resources (pick j.ctx.op o outside)
  CallMove-Seen o a b p q (inner m) = Inner-Seen o a b p q m
  CallMove-Seen o a b p q (emits held result ev) =
      unseen o a.engine.resources (pick ev.op o (guarded held))
  CallMove-Seen o a b p q (records true result ev) =
      unseen o a.engine.resources (pick ev.op o holding)
  CallMove-Seen o a b p q (records false result ev) = gone ev.op o a.engine.resources
