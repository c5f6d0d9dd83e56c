-- ===== src/Engine/Threads/Known.antt =====
-- What the configuration and a call's number say of the call while it is under way, and of its event.
use fusecraft_rs.Base.{ℕ, ◌≡◌, refl, List, [], ◌∷◌, ◌++◌, map, All, some}
use mathlib.Core.List.{Memᴰ}
use fusecraft_rs.Op.{FsOp}
use fusecraft_rs.Error.{Libc}
use fusecraft_rs.Float.{Float, Rng}
use fusecraft_rs.Config.{Config}
use fusecraft_rs.Events.{Event, error}
use fusecraft_rs.Base.Word.{as_micros}
use fusecraft_rs.Engine.{OpResources, Clock, get_resources, put_resources}
use fusecraft_rs.Engine.Lifecycle.{event_of, classify, execute}
use fusecraft_rs.Engine.Session.Expected.{fault_at, latency_at}
use fusecraft_rs.Engine.Threads.{
  Job, Call, fresh, numbered, asleep, woken, slotted, delayed, reporting, Shared, set_resources,
  sampled, again_errno, Inner, Drop, closes, unwinds, is_unregistered, is_admitted, is_rejected,
  queues_up, stirs, takes_slot, sleeps_on, overflows, delays, executes,
}
use fusecraft_rs.Engine.Threads.Policies.{
  HasPolicies, put-HasPolicies, charged_policy, fault-at, latency-at,
}

-- What is known of an event: a limiter turned one of the calls away; or the fault and the latency
-- that the configuration gives a call of this number took effect, in some state of the world.
pub data IsDrawn {F W T : Type 0} ⦃fl : Float F⦄ ⦃rng : Rng F⦄ ⦃libc : Libc⦄ (c : Config F)
    (jobs : List (Job W T)) (ev : Event) : Type 0 where
  turned_away :
      (j : Job W T) (seq : ℕ) (t : Clock)
      → Memᴰ j jobs
      → ev ≡ event_of j.ctx seq error (some again_errno) 0 0 0 t
      → IsDrawn c jobs ev
  ran :
      (j : Job W T) (seq wait delay : ℕ) (t : Clock) (world : W)
      → Memᴰ j jobs
      → ev
        ≡ event_of j.ctx seq
            (classify (execute (fault_at c seq j.ctx) j.body world).0).0
            (classify (execute (fault_at c seq j.ctx) j.body world).0).1
            wait
            (latency_at c seq j.ctx)
            delay
            t
      → IsDrawn c jobs ev

pub All-snoc :
    {A : Type 0} (P : A → Type 0) (xs : List A) (x : A) → All P xs → P x → All P (xs ++ x ∷ [])
All-snoc P [] x h k = (k, tt)
All-snoc P (y ∷ ys) x (h, hs) k = (h, All-snoc P ys x hs k)

-- One of a list replaced by another of which the same is known.
pub All-replace :
    {A : Type 0} (P : A → Type 0) (l r : List A) (x y : A)
    → (P x → P y)
    → All P (l ++ (x ∷ r))
    → All P (l ++ (y ∷ r))
All-replace P [] r x y f (h, hs) = (f h, hs)
All-replace P (z ∷ l) r x y f (h, hs) = (h, All-replace P l r x y f hs)

pub All-Mem :
    {A : Type 0} (xs ys : List A) → ((x : A) → Memᴰ x xs → Memᴰ x ys) → All (λ x. Memᴰ x ys) xs
All-Mem [] ys f = tt
All-Mem (x ∷ xs) ys f = (f x (Memᴰ.head refl), All-Mem xs ys (λ y m. f y (Memᴰ.tail m)))

module _ {F W T : Type 0} ⦃fl : Float F⦄ ⦃rng : Rng F⦄ ⦃libc : Libc⦄ (c : Config F)
    (jobs : List (Job W T)) where
  -- What is known of a call under way.
  abbrev pub Known : Call W T → Type 0
  Known (fresh j) = Memᴰ j jobs
  Known (numbered j _) = Memᴰ j jobs
  Known (asleep j _) = Memᴰ j jobs
  Known (woken j _) = Memᴰ j jobs
  Known (slotted j _ _) = Memᴰ j jobs
  Known (delayed j seq fault _ latency _) =
      Memᴰ j jobs × (fault ≡ fault_at c seq j.ctx) × (latency ≡ latency_at c seq j.ctx)
  Known (reporting _ _ ev) = IsDrawn c jobs ev
  Known _ = Unit

  pub fresh-Known : (js : List (Job W T)) → All (λ j. Memᴰ j jobs) js → All Known (map fresh js)
  fresh-Known [] h = tt
  fresh-Known (j ∷ js) (m, h) = (m, fresh-Known js h)

  pub Drop-Known : (op : FsOp) (p q : Call W T) → Drop op p q → Known p → Known q
  Drop-Known op p q (closes result) h = tt
  Drop-Known op p q (unwinds seq) h = tt

  module _ {H S : Type 0} where
    -- The seed and the policies are those of the configuration.
    pub record IsConfigured (a : Shared F H S W) : Type 0 where
      pub seed : a.engine.seed ≡ c.seed
      pub policies : HasPolicies c a.engine.resources

    pub put-IsConfigured :
        (a : Shared F H S W) (op : FsOp) (r r' : OpResources F)
        → IsConfigured a
        → get_resources op a.engine.resources ≡ some r
        → r'.policy ≡ r.policy
        → IsConfigured (set_resources a (put_resources op r' a.engine.resources) a.world)
    put-IsConfigured a op r r' h found same = record {
      seed = h.seed;
      policies = put-HasPolicies c op r r' a.engine.resources h.policies found same;
    }

    -- What is known of a call and the engine is known after its step, which leaves the log.
    pub Inner-Known :
        (a b : Shared F H S W) (p q : Call W T)
        → Inner a p b q
        → IsConfigured a
        → Known p
        → IsConfigured b × Known q × (b.log ≡ a.log)
    Inner-Known a b p q (is_unregistered j seq found) h m = (h, tt, refl)
    Inner-Known a b p q (is_admitted j seq r s found e) h m =
        (put-IsConfigured a j.ctx.op r _ h found refl, m, refl)
    Inner-Known a b p q (is_rejected j seq r s t found e) h m =
        (put-IsConfigured a j.ctx.op r _ h found refl, turned_away j seq t m refl, refl)
    Inner-Known a b p q (queues_up j seq r s found e) h m =
        (put-IsConfigured a j.ctx.op r _ h found refl, m, refl)
    Inner-Known a b p q (stirs j seq) h m = (h, m, refl)
    Inner-Known a b p q (takes_slot j seq wait r found free) h m =
        (put-IsConfigured a j.ctx.op r _ h found refl, m, refl)
    Inner-Known a b p q (sleeps_on j seq r found full) h m = (h, m, refl)
    Inner-Known a b p q (overflows j seq wait r t found e) h m =
        (put-IsConfigured a j.ctx.op r _ h found (charged_policy j.ctx t r), tt, refl)
    Inner-Known a b p q (delays j seq wait sleep_for r t found e) h m = (
      put-IsConfigured a j.ctx.op r _ h found (charged_policy j.ctx t r),
      (
        m,
        fault-at c (sampled a seq) j.ctx r h.seed (h.policies j.ctx.op r found),
        latency-at c (sampled a seq) j.ctx r h.seed (h.policies j.ctx.op r found),
      ),
      refl,
    )
    Inner-Known a b p q (executes j seq fault wait latency delay t) h (m, is_fault, is_latency) = (
      record { seed = h.seed; policies = h.policies },
      ran j seq (as_micros wait) (as_micros delay) t a.world m (rw (is_fault, is_latency) refl),
      refl,
    )
