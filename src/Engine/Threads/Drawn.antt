-- ===== src/Engine/Threads/Drawn.antt =====
-- What the log says of a call is drawn by its number, in whatever order the calls run.
use fusecraft_rs.Base.{ℕ, ◌≡◌, refl, sym, subst, true, false, List, ◌∷◌, ◌++◌, All, some}
use fusecraft_rs.Op.{FsOp}
use fusecraft_rs.Error.{Libc}
use fusecraft_rs.Float.{Float, Rng}
use fusecraft_rs.Config.{Config}
use fusecraft_rs.Events.{EventSink}
use fusecraft_rs.Metrics.{Histogram}
use fusecraft_rs.Engine.{OpResources, get_resources, new}
use fusecraft_rs.Engine.Threads.{
  Job, Call, asleep, woken, System, set_state, CallMove, CallStep, Reach, takes_number, inner,
  emits, records, own, drops, drops_and_wakes, begin, next, fetch_add, emit_event, record_event,
}
use fusecraft_rs.Limiter.Concurrency.{release}
use fusecraft_rs.Engine.Threads.Idle.{All-middle}
use fusecraft_rs.Engine.Threads.Known.{
  IsDrawn, All-snoc, All-replace, All-Mem, Known, fresh-Known, Drop-Known, IsConfigured,
  put-IsConfigured, Inner-Known,
}
use fusecraft_rs.Engine.Threads.Policies.{new-HasPolicies}

module _ {F W T : Type 0} ⦃fl : Float F⦄ ⦃rng : Rng F⦄ ⦃libc : Libc⦄ (c : Config F)
    (jobs : List (Job W T)) where
  module _ {H S : Type 0} where
    pub record IsDrawnState (s : System F H S W T) : Type 0 where
      pub configured : IsConfigured c jobs s.shared
      pub known : All (Known c jobs) s.calls
      pub drawn : All (IsDrawn c jobs) s.shared.log

    replace-IsDrawnState :
        (a b : System F H S W T) (l r : List (Call W T)) (p q : Call W T)
        → IsDrawnState a
        → a.calls ≡ l ++ (p ∷ r)
        → b.calls ≡ l ++ (q ∷ r)
        → IsConfigured c jobs b.shared
        → All (IsDrawn c jobs) b.shared.log
        → (Known c jobs p → Known c jobs q)
        → IsDrawnState b
    replace-IsDrawnState a b l r p q h e k configured drawn f = record {
      configured = configured;
      known =
          subst (All (Known c jobs)) (sym k)
            (All-replace (Known c jobs) l r p q f (subst (All (Known c jobs)) e h.known));
      drawn = drawn;
    }

module _ {F H S W T : Type 0} ⦃fl : Float F⦄ ⦃rng : Rng F⦄ ⦃libc : Libc⦄ ⦃histogram : Histogram H⦄
    ⦃sink : EventSink S⦄ (c : Config F) (jobs : List (Job W T)) where
  own-IsDrawnState :
      (a b : System F H S W T) (l r : List (Call W T)) (p q : Call W T)
      → IsDrawnState c jobs a
      → a.calls ≡ l ++ (p ∷ r)
      → CallMove a.shared p b.shared q
      → b.calls ≡ l ++ (q ∷ r)
      → IsDrawnState c jobs b
  unfolding fetch_add emit_event record_event
  own-IsDrawnState a b l r p q h e (takes_number j) k =
      replace-IsDrawnState c jobs a b l r p q h e k
        (record { seed = h.configured.seed; policies = h.configured.policies }) h.drawn (λ m. m)
  own-IsDrawnState a b l r p q h e (inner m) k =
      let here = All-middle (Known c jobs) l p r (subst (All (Known c jobs)) e h.known) in
      let (configured, there, same) =
        Inner-Known c jobs a.shared b.shared p q m h.configured here in
      replace-IsDrawnState c jobs a b l r p q h e k configured
        (subst (All (IsDrawn c jobs)) (sym same) h.drawn) (λ known. there)
  own-IsDrawnState a b l r p q h e (emits held result ev) k =
      let here = All-middle (Known c jobs) l p r (subst (All (Known c jobs)) e h.known) in
      replace-IsDrawnState c jobs a b l r p q h e k
        (record { seed = h.configured.seed; policies = h.configured.policies })
        (All-snoc (IsDrawn c jobs) a.shared.log ev h.drawn here) (λ known. tt)
  own-IsDrawnState a b l r p q h e (records true result ev) k =
      replace-IsDrawnState c jobs a b l r p q h e k
        (record { seed = h.configured.seed; policies = h.configured.policies }) h.drawn
        (λ known. tt)
  own-IsDrawnState a b l r p q h e (records false result ev) k =
      replace-IsDrawnState c jobs a b l r p q h e k
        (record { seed = h.configured.seed; policies = h.configured.policies }) h.drawn
        (λ known. tt)

  released-IsConfigured :
      (a b : System F H S W T) (op : FsOp) (x : OpResources F)
      → IsDrawnState c jobs a
      → get_resources op a.shared.engine.resources ≡ some x
      → b.shared ≡ set_state op x (release x.limiter.state) a.shared
      → IsConfigured c jobs b.shared × All (IsDrawn c jobs) b.shared.log
  released-IsConfigured a b op x h found e =
      let y = record x { limiter = record x.limiter { state = release x.limiter.state } } in
      (
        subst (IsConfigured c jobs) (sym e)
            (put-IsConfigured c jobs a.shared op x y h.configured found refl),
        subst (λ z. All (IsDrawn c jobs) z.log) (sym e) h.drawn,
      )

  CallStep-IsDrawnState :
      (a b : System F H S W T) → IsDrawnState c jobs a → CallStep a b → IsDrawnState c jobs b
  CallStep-IsDrawnState a b h (own l r p q e m k) = own-IsDrawnState a b l r p q h e m k
  CallStep-IsDrawnState a b h (drops l r p q op x e d nobody found after k) =
      let (configured, drawn) = released-IsConfigured a b op x h found after in
      replace-IsDrawnState c jobs a b l r p q h e k configured drawn (Drop-Known c jobs op p q d)
  CallStep-IsDrawnState a b h
        (drops_and_wakes l r l' r' p q op x j seq e d there same found after k) =
      let (configured, drawn) = released-IsConfigured a b op x h found after in
      replace-IsDrawnState c jobs (record { shared = b.shared; calls = l ++ (q ∷ r) }) b l' r'
        (asleep j seq) (woken j seq)
        (replace-IsDrawnState c jobs a (record { shared = b.shared; calls = l ++ (q ∷ r) }) l r p q
          h e refl configured drawn (Drop-Known c jobs op p q d))
        there k configured drawn (λ m. m)

  module _ (events : S) (now : ℕ) (world : W) where
    Reach-IsDrawnState :
        (s : System F H S W T) → Reach c events now world jobs s → IsDrawnState c jobs s
    unfolding new
    Reach-IsDrawnState s (begin e) = subst (IsDrawnState c jobs) (sym e) (record {
      configured = record { seed = refl; policies = new-HasPolicies H c events now };
      known = fresh-Known c jobs jobs (All-Mem jobs jobs (λ x m. m));
      drawn = tt;
    })
    Reach-IsDrawnState s (next {a} before step) =
        CallStep-IsDrawnState a s (Reach-IsDrawnState a before) step

    -- What is injected into a call depends on the configuration, the call and its number alone,
    -- in whatever order the calls run: in every state that calls of `run_op`, interleaved in
    -- any way on a new engine, can reach, each event of the log is that of one of the calls,
    -- which either its limiter turned away with EAGAIN and no delay, or whose fault and latency
    -- are those that the configuration's seed and policy give the call and its number: the
    -- fault's errno stands in place of what the body returns, and the latency is in the event.
    pub log-IsDrawn :
        (s : System F H S W T) → Reach c events now world jobs s → All (IsDrawn c jobs) s.shared.log
    log-IsDrawn s reached = (Reach-IsDrawnState s reached).drawn
