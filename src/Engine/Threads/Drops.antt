-- ===== src/Engine/Threads/Drops.antt =====
-- A guard that drops, as the limiter of an operation sees it, and the calls as its threads.
use fusecraft_rs.Base.{
  ◌≡◌, refl, ap, sym, ◌∙◌, true, false, if◌then◌else◌, List, [], ◌∷◌, ◌++◌, map, length, some,
  arith,
}
use mathlib.Core.List.{map-append}
use fusecraft_rs.Op.{FsOp, op_eq}
use fusecraft_rs.Limiter.Concurrency.{release}
use fusecraft_rs.Limiter.Concurrency.Threads.{
  Pc, outside, holding, sleeping, Move, Step, all_outside, holders, sleepers, waiters, wakers,
}
use fusecraft_rs.Limiter.Concurrency.Threads as Limiter
use fusecraft_rs.Engine.{OpResources, get_resources}
use fusecraft_rs.Engine.Resources.{get-put}
use fusecraft_rs.Engine.Threads.{
  Job, Call, fresh, numbered, asleep, woken, slotted, delayed, reporting, recording, closing,
  finished, panicking, lost, System, set_state, Drop, total, closes, unwinds, sleeps_in,
}
use fusecraft_rs.Engine.Threads.Seen.{pick, pick_outside, pc}

sleepers-pick : (op o : FsOp) (x : Pc) → sleepers x ≡ 0 → sleepers (pick op o x) ≡ 0
sleepers-pick op o x h = ground (arith, h)

module _ {W T : Type 0} where
  -- Fresh calls are threads that have not called the limiter.
  pub fresh_outside :
      (o : FsOp) (jobs : List (Job W T)) → map (pc o) (map fresh jobs) ≡ all_outside (length jobs)
  fresh_outside o [] = refl
  fresh_outside o (j ∷ jobs) = rw (pick_outside j.ctx.op o, fresh_outside o jobs) refl

  sleepers-pc : (o : FsOp) (p : Call W T) → sleepers (pc o p) ≡ sleeps_in o p
  sleepers-pc o (asleep j seq) = ground arith
  sleepers-pc o (fresh j) = sleepers-pick j.ctx.op o outside refl
  sleepers-pc o (numbered j seq) = sleepers-pick j.ctx.op o outside refl
  sleepers-pc o (woken j seq) = sleepers-pick j.ctx.op o (Limiter.woken false) refl
  sleepers-pc o (slotted j seq wait) = sleepers-pick j.ctx.op o holding refl
  sleepers-pc o (delayed j seq fault wait latency delay) = sleepers-pick j.ctx.op o holding refl
  sleepers-pc o (reporting true result ev) = sleepers-pick ev.op o holding refl
  sleepers-pc o (reporting false result ev) = sleepers-pick ev.op o outside refl
  sleepers-pc o (recording true result ev) = sleepers-pick ev.op o holding refl
  sleepers-pc o (recording false result ev) = sleepers-pick ev.op o outside refl
  sleepers-pc o (closing op result) = sleepers-pick op o holding refl
  sleepers-pc o (finished result) = refl
  sleepers-pc o (panicking op seq) = sleepers-pick op o holding refl
  sleepers-pc o (lost seq) = refl

  pub sleepers-map :
      (o : FsOp) (calls : List (Call W T))
      → Limiter.total sleepers (map (pc o) calls) ≡ total (sleeps_in o) calls
  sleepers-map o [] = refl
  sleepers-map o (p ∷ ps) = omega (arith, sleepers-pc o p, sleepers-map o ps)

  -- A call among the threads.
  pub split :
      (o : FsOp) (l r : List (Call W T)) (p : Call W T) (calls : List (Call W T))
      → calls ≡ l ++ (p ∷ r)
      → map (pc o) calls ≡ map (pc o) l ++ (pc o p ∷ map (pc o) r)
  split o l r p calls e = ap (map (pc o)) e ∙ map-append (pc o) l (p ∷ r)

  Drop-pc :
      (o op : FsOp) (p q : Call W T)
      → Drop op p q
      → (pc o p ≡ pick op o holding) × (pc o q ≡ outside)
  Drop-pc o op p q (closes result) = (refl, refl)
  Drop-pc o op p q (unwinds seq) = (refl, refl)

  -- The dropping call leaves its slot.
  pub dropped :
      (o op : FsOp) (l r : List (Call W T)) (p q : Call W T) (calls : List (Call W T))
      → op_eq op o ≡ true
      → Drop op p q
      → calls ≡ l ++ (p ∷ r)
      → map (pc o) calls ≡ map (pc o) l ++ (holding ∷ map (pc o) r)
  dropped o op l r p q calls same d here =
      split o l r p calls here
      ∙ ap (λ z. map (pc o) l ++ (z ∷ map (pc o) r)) ((Drop-pc o op p q d).0 ∙ rw same refl)

  pub left :
      (o op : FsOp) (l r : List (Call W T)) (p q : Call W T) (calls : List (Call W T))
      → Drop op p q
      → calls ≡ l ++ (q ∷ r)
      → map (pc o) calls ≡ map (pc o) l ++ (outside ∷ map (pc o) r)
  left o op l r p q calls d there =
      split o l r q calls there
      ∙ ap (λ z. map (pc o) l ++ (z ∷ map (pc o) r)) (Drop-pc o op p q d).1

  pub unnoticed :
      (o op : FsOp) (l r : List (Call W T)) (p q : Call W T) (calls : List (Call W T))
      → op_eq op o ≡ false
      → Drop op p q
      → calls ≡ l ++ (p ∷ r)
      → map (pc o) (l ++ (q ∷ r)) ≡ map (pc o) calls
  unnoticed o op l r p q calls other d here =
      left o op l r p q (l ++ (q ∷ r)) d refl
      ∙ ap (λ z. map (pc o) l ++ (z ∷ map (pc o) r)) (sym ((Drop-pc o op p q d).0 ∙ rw other refl))
      ∙ sym (split o l r p calls here)

-- What `o` has after a guard of `op` was dropped.
abbrev pub released : {F : Type 0} → OpResources F → OpResources F
released x = record x { limiter = record x.limiter { state = release x.limiter.state } }

pub after_drop :
    {F H S W T : Type 0} (o : FsOp) (a b : System F H S W T) (op : FsOp) (x : OpResources F)
    → get_resources op a.shared.engine.resources ≡ some x
    → b.shared ≡ set_state op x (release x.limiter.state) a.shared
    → get_resources o b.shared.engine.resources
      ≡ (if op_eq op o then some (released x) else get_resources o a.shared.engine.resources)
after_drop o a b op x found changed =
    ap (λ z. get_resources o z.engine.resources) changed
    ∙ get-put op o x (released x) a.shared.engine.resources found
