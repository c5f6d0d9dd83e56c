-- ===== src/Engine/Threads/Limiters.antt =====
-- Each operation's limiter, with the calls as its threads: what the engine does to it is what
-- Limiter/Concurrency/Threads allows, so what that promises holds of the engine.
use fusecraft_rs.Base.{
  ℕ, ◌≡◌, inl, inr, refl, ap, sym, ◌∙◌, true, false, Bool-cases, List, [], ◌∷◌, ◌++◌, map, length,
  some, arith,
}
use fusecraft_rs.Op.{FsOp, op_eq}
use fusecraft_rs.Op.Laws.{op_eq_iff}
use fusecraft_rs.Error.{Libc}
use fusecraft_rs.Float.{Float, Rng}
use fusecraft_rs.Config.{Config}
use fusecraft_rs.Limiter.Concurrency.{LimiterState, BlockingLimiter, release}
use fusecraft_rs.Limiter.Concurrency as Concurrency
use fusecraft_rs.Limiter.Concurrency.Threads.{
  Pc, outside, holding, sleeping, Move, Step, all_outside, holders, sleepers, waiters, wakers,
}
use fusecraft_rs.Limiter.Concurrency.Threads as Limiter
use fusecraft_rs.Events.{EventSink}
use fusecraft_rs.Metrics.{Histogram}
use fusecraft_rs.Engine.{OpResources, get_resources, new, new_resources}
use fusecraft_rs.Engine.Session.Quiet.{policy_of}
use fusecraft_rs.Engine.Resources.{get_resources-new}
use fusecraft_rs.Engine.Threads.{
  Job, Call, fresh, asleep, woken, System, set_state, CallMove, CallStep, Drop, Reach, total, own,
  drops, drops_and_wakes, begin, next, sleeps_in,
}
use fusecraft_rs.Engine.Threads.Seen.{pc, same_resources, CallMove-Seen}
use fusecraft_rs.Engine.Threads.Drops.{
  fresh_outside, sleepers-map, split, dropped, left, unnoticed, released, after_drop,
}

-- The limiter of `o` in the engine, and the calls as its threads.
pub record IsLimiterRun {F H S W T : Type 0} (cap queue_cap n : ℕ) (o : FsOp) (s : System F H S W T)
    : Type 0 where
  pub resources : OpResources F
  pub found : get_resources o s.shared.engine.resources ≡ some resources
  pub same_cap : resources.limiter.cap ≡ cap
  pub same_queue_cap : resources.limiter.queue_cap ≡ queue_cap
  pub reached :
      Limiter.Reach cap queue_cap n
        (record { limiter = resources.limiter.state; threads = map (pc o) s.calls })

module _ {F H S W T : Type 0} ⦃fl : Float F⦄ ⦃rng : Rng F⦄ ⦃libc : Libc⦄ ⦃histogram : Histogram H⦄
    ⦃sink : EventSink S⦄ {cap queue_cap n : ℕ} (o : FsOp) where
  -- A step that the limiter does not notice.
  stutter :
      (a b : System F H S W T) (h : IsLimiterRun cap queue_cap n o a) (r : OpResources F)
      → get_resources o b.shared.engine.resources ≡ some r
      → r.limiter ≡ h.resources.limiter
      → map (pc o) b.calls ≡ map (pc o) a.calls
      → IsLimiterRun cap queue_cap n o b
  stutter a b h r found same calls = record {
    resources = r;
    found = found;
    same_cap = ap (λ l. l.cap) same ∙ h.same_cap;
    same_queue_cap = ap (λ l. l.queue_cap) same ∙ h.same_queue_cap;
    reached = rw (same, calls) h.reached;
  }

  -- A step of the limiter.
  advance :
      (a b : System F H S W T) (h : IsLimiterRun cap queue_cap n o a) (r : OpResources F)
      → get_resources o b.shared.engine.resources ≡ some r
      → r.limiter.cap ≡ h.resources.limiter.cap
      → r.limiter.queue_cap ≡ h.resources.limiter.queue_cap
      → Step h.resources.limiter.cap h.resources.limiter.queue_cap
          (record { limiter = h.resources.limiter.state; threads = map (pc o) a.calls })
          (record { limiter = r.limiter.state; threads = map (pc o) b.calls })
      → IsLimiterRun cap queue_cap n o b
  advance a b h r found cap_eq queue_eq step = record {
    resources = r;
    found = found;
    same_cap = cap_eq ∙ h.same_cap;
    same_queue_cap = queue_eq ∙ h.same_queue_cap;
    reached = Limiter.next h.reached (rw (h.same_cap, h.same_queue_cap) at step);
  }

  move-IsLimiterRun :
      (a b : System F H S W T) (l r : List (Call W T)) (p q : Call W T)
      → IsLimiterRun cap queue_cap n o a
      → a.calls ≡ l ++ (p ∷ r)
      → CallMove a.shared p b.shared q
      → b.calls ≡ l ++ (q ∷ r)
      → IsLimiterRun cap queue_cap n o b
  move-IsLimiterRun a b l r p q h here m there =
      let (x, found, seen) = CallMove-Seen o a.shared b.shared p q m h.resources h.found in
      elim seen.moves [
        | inl move ↦ advance a b h x found seen.cap seen.queue_cap (
            Limiter.own (map (pc o) l) (map (pc o) r) (pc o p) (pc o q) (split o l r p a.calls here)
              move (split o l r q b.calls there))
        | inr (state, pcs) ↦
            stutter a b h x found (ground (arith, seen.cap, seen.queue_cap, state)) (
              split o l r q b.calls there
              ∙ ap (λ z. map (pc o) l ++ (z ∷ map (pc o) r)) pcs
              ∙ sym (split o l r p a.calls here))
      ]

  drops-IsLimiterRun :
      (a b : System F H S W T) (l r : List (Call W T)) (p q : Call W T) (op : FsOp)
      (x : OpResources F)
      → IsLimiterRun cap queue_cap n o a
      → a.calls ≡ l ++ (p ∷ r)
      → Drop op p q
      → total (sleeps_in op) a.calls ≡ 0
      → get_resources op a.shared.engine.resources ≡ some x
      → b.shared ≡ set_state op x (release x.limiter.state) a.shared
      → b.calls ≡ l ++ (q ∷ r)
      → IsLimiterRun cap queue_cap n o b
  drops-IsLimiterRun a b l r p q op x h here d none_ found changed there =
      let after = after_drop o a b op x found changed in
      elim (Bool-cases (op_eq op o)) [
        | inl same ↦
            let e =
              same_resources op o a.shared.engine.resources h.resources x same found h.found in
            let at_o = (op_eq_iff op o).0 same in
            advance a b h (released x) (after ∙ rw same refl) (ap (λ z. z.limiter.cap) e)
              (ap (λ z. z.limiter.queue_cap) e)
              (Limiter.drops (map (pc o) l) (map (pc o) r)
                (dropped o op l r p q a.calls same d here)
                (sleepers-map o a.calls ∙ ap (λ z. total (sleeps_in z) a.calls) (sym at_o) ∙ none_)
                (left o op l r p q b.calls d there) (ap (λ z. release z.limiter.state) e))
        | inr other ↦
            stutter a b h h.resources (after ∙ rw other h.found) refl
              (ap (map (pc o)) there ∙ unnoticed o op l r p q a.calls other d here)
      ]

  wakes-IsLimiterRun :
      (a b : System F H S W T) (l r l' r' : List (Call W T)) (p q : Call W T) (op : FsOp)
      (x : OpResources F) (j : Job W T) (seq : ℕ)
      → IsLimiterRun cap queue_cap n o a
      → a.calls ≡ l ++ (p ∷ r)
      → Drop op p q
      → l ++ (q ∷ r) ≡ l' ++ (asleep j seq ∷ r')
      → j.ctx.op ≡ op
      → get_resources op a.shared.engine.resources ≡ some x
      → b.shared ≡ set_state op x (release x.limiter.state) a.shared
      → b.calls ≡ l' ++ (woken j seq ∷ r')
      → IsLimiterRun cap queue_cap n o b
  wakes-IsLimiterRun a b l r l' r' p q op x j seq h here d shape at_op found changed there =
      let after = after_drop o a b op x found changed in
      elim (Bool-cases (op_eq op o)) [
        | inl same ↦
            let e =
              same_resources op o a.shared.engine.resources h.resources x same found h.found in
            let picked : op_eq j.ctx.op o ≡ true = ap (λ z. op_eq z o) at_op ∙ same in
            advance a b h (released x) (after ∙ rw same refl) (ap (λ z. z.limiter.cap) e)
              (ap (λ z. z.limiter.queue_cap) e)
              (Limiter.drops_and_wakes (map (pc o) l) (map (pc o) r) (map (pc o) l') (map (pc o) r')
                false (dropped o op l r p q a.calls same d here)
                (sym (left o op l r p q (l ++ (q ∷ r)) d refl)
                  ∙ split o l' r' (asleep j seq) (l ++ (q ∷ r)) shape
                  ∙ rw picked refl)
                (split o l' r' (woken j seq) b.calls there ∙ rw picked refl)
                (ap (λ z. release z.limiter.state) e))
        | inr other ↦
            let picked : op_eq j.ctx.op o ≡ false = ap (λ z. op_eq z o) at_op ∙ other in
            let unseen : pc o (woken j seq) ≡ pc o (asleep j seq) = rw picked refl in
            stutter a b h h.resources (after ∙ rw other h.found) refl (
              split o l' r' (woken j seq) b.calls there
              ∙ ap (λ z. map (pc o) l' ++ (z ∷ map (pc o) r')) unseen
              ∙ sym (split o l' r' (asleep j seq) (l ++ (q ∷ r)) shape)
              ∙ unnoticed o op l r p q a.calls other d here)
      ]

  CallStep-IsLimiterRun :
      (a b : System F H S W T)
      → IsLimiterRun cap queue_cap n o a
      → CallStep a b
      → IsLimiterRun cap queue_cap n o b
  CallStep-IsLimiterRun a b h (own l r p q here m there) =
      move-IsLimiterRun a b l r p q h here m there
  CallStep-IsLimiterRun a b h (drops l r p q op x here d none_ found changed there) =
      drops-IsLimiterRun a b l r p q op x h here d none_ found changed there
  CallStep-IsLimiterRun a b h
        (drops_and_wakes l r l' r' p q op x j seq here d shape at_op found changed there) =
      wakes-IsLimiterRun a b l r l' r' p q op x j seq h here d shape at_op found changed there

-- The bounds of the limiter of `o`, as the configuration has them.
abbrev pub cap_of : {F : Type 0} ⦃fl : Float F⦄ → Config F → FsOp → ℕ
cap_of c o = (policy_of c o).concurrency_cap

abbrev pub queue_cap_of : {F : Type 0} ⦃fl : Float F⦄ → Config F → FsOp → ℕ
queue_cap_of c o = (policy_of c o).queue_cap

module _ {F H S W T : Type 0} ⦃fl : Float F⦄ ⦃rng : Rng F⦄ ⦃libc : Libc⦄ ⦃histogram : Histogram H⦄
    ⦃sink : EventSink S⦄ (c : Config F) (events : S) (now : ℕ) (world : W) (jobs : List (Job W T))
    (o : FsOp) where
  begin-IsLimiterRun :
      (s : System F H S W T)
      → s ≡ record {
        shared = record { engine = new c events now; world = world; log = []; recorded = [] };
        calls = map fresh jobs;
      }
      → IsLimiterRun (cap_of c o) (queue_cap_of c o) (length jobs) o s
  unfolding new_resources Concurrency.new
  begin-IsLimiterRun s e = record {
    resources = new_resources c now o;
    found =
        ap (λ z. get_resources o z.shared.engine.resources) e ∙ get_resources-new H c events now o;
    same_cap = refl;
    same_queue_cap = refl;
    reached = Limiter.start (
        ap
          (λ z. record {
            limiter = (new_resources c now o).limiter.state;
            threads = map (pc o) z.calls;
          })
          e
        ∙ ap (λ z. record { limiter = (new_resources c now o).limiter.state; threads = z })
            (fresh_outside o jobs));
  }

  -- In every state that calls of `run_op`, interleaved in any way on a new engine, can reach,
  -- each operation has its resources, with the policy's cap and queue cap, and the state of its
  -- limiter and what its calls do there are a state that the step relation of the limiter alone,
  -- Limiter/Concurrency/Threads, can reach with as many threads.
  pub Reach-IsLimiterRun :
      (s : System F H S W T)
      → Reach c events now world jobs s
      → IsLimiterRun (cap_of c o) (queue_cap_of c o) (length jobs) o s
  Reach-IsLimiterRun s (begin e) = begin-IsLimiterRun s e
  Reach-IsLimiterRun s (next {a} before step) =
      CallStep-IsLimiterRun o a s (Reach-IsLimiterRun a before) step
