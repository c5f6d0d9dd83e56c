-- ===== src/Engine/Session/Quiet.antt =====
-- Engines without bandwidth limits, between two calls: every limiter has its slots, and a call
-- selects the tier that the policy alone determines.
use fusecraft_rs.Base.{
  ℕ, ◌<◌, ◌≤◌, ◌≡◌, refl, ap, sym, subst, true, Bool-cases, inl, inr, ltb, if◌then◌else◌, List, [],
  ◌∷◌, Option, none, some, All, arith,
}
use fusecraft_rs.Base.Word.{u64_max}
use fusecraft_rs.Op.{FsOp, op_eq, is_data}
use fusecraft_rs.Float.{Float}
use fusecraft_rs.Config.{
  Config, OpPolicy, SizeTier, LatencyProfile, FaultRule, get_policy, default_policy,
  default_latency,
}
use fusecraft_rs.Limiter.Concurrency as Concurrency
use fusecraft_rs.Limiter.Concurrency.{
  LimiterState, BlockingLimiter, granted, acquire, admit, release,
}
use fusecraft_rs.Engine.{
  OpContext, OpResources, select_tier, large_tier, Selected, new_resources, new_bandwidth,
  large_profile, unwrap_or_default,
}

-- A policy without bandwidth limits, with a slot, and with maxima that a `u64` holds.
abbrev pub IsTameTier : {F : Type 0} → Option (SizeTier F) → Type 0
IsTameTier none = Unit {0}
IsTameTier (some tier) = (tier.large.bandwidth ≡ none) × (tier.large.latency.max_us ≤ u64_max)

pub record IsTame {F : Type 0} (p : OpPolicy F) : Type 0 where
  pub slot : 0 < p.concurrency_cap
  pub unlimited : p.bandwidth ≡ none
  pub max_fits : p.latency.max_us ≤ u64_max
  pub tier : IsTameTier p.size_tier

-- The policy of an operation kind, and the configurations in which every kind has a tame one.
abbrev pub policy_of : {F : Type 0} ⦃fl : Float F⦄ → Config F → FsOp → OpPolicy F
policy_of c op = unwrap_or_default (get_policy op c.ops)

-- What the engine holds for an operation kind between the calls of a session.
pub record IsQuiet {F : Type 0} (p : OpPolicy F) (r : OpResources F) : Type 0 where
  pub policy : r.policy ≡ p
  pub idle : r.limiter.state.inflight ≡ 0
  pub cap : r.limiter.cap ≡ p.concurrency_cap
  pub unlimited : r.bandwidth ≡ none
  pub large_unlimited : r.large_bandwidth ≡ none

module _ {F : Type 0} ⦃fl : Float F⦄ where
  pub new_resources-IsQuiet :
      (c : Config F) (now : ℕ) (op : FsOp)
      → IsTame (policy_of c op)
      → IsQuiet (policy_of c op) (new_resources c now op)
  unfolding new_resources Concurrency.new
  new_resources-IsQuiet c now op tame = record {
    policy = refl;
    idle = refl;
    cap = refl;
    unlimited = ap (new_bandwidth now) tame.unlimited;
    large_unlimited = ap (new_bandwidth now) (no_large (policy_of c op).size_tier tame.tier);
  }
    where
      no_large : (t : Option (SizeTier F)) → IsTameTier t → large_profile t ≡ none
      no_large none h = refl
      no_large (some tier) h = h.0

  -- The tier of a policy for a call: its latency profile and its faults.
  abbrev pub size_tier_of :
      OpPolicy F → Option (SizeTier F) → ℕ → LatencyProfile F × List (FaultRule F)
  size_tier_of p none n = (p.latency, p.faults)
  size_tier_of p (some tier) n =
      if ltb tier.threshold_bytes n
      then (tier.large.latency, tier.large.faults)
      else (p.latency, p.faults)

  abbrev pub tier_of : OpPolicy F → OpContext → LatencyProfile F × List (FaultRule F)
  tier_of p ctx =
      if is_data ctx.op then size_tier_of p p.size_tier ctx.requested_len else (p.latency, p.faults)

  -- What `select_tier` finds in quiet resources.
  pub record Selection (p : OpPolicy F) (ctx : OpContext) (sel : Selected F) : Type 0 where
    pub profile : sel.0 ≡ (tier_of p ctx).0
    pub rules : sel.1 ≡ (tier_of p ctx).1
    pub no_limiter : sel.2 ≡ none
    pub max_fits : sel.0.max_us ≤ u64_max

  base-Selection : (p : OpPolicy F) (r : OpResources F) (n : ℕ) → IsQuiet p r → IsTame p → record {
    profile : r.policy.latency ≡ p.latency;
    rules : r.policy.faults ≡ p.faults;
    max_fits : r.policy.latency.max_us ≤ u64_max;
  }
  base-Selection p r n q tame = record {
    profile = ap (λ (x : OpPolicy F). x.latency) q.policy;
    rules = ap (λ (x : OpPolicy F). x.faults) q.policy;
    max_fits = subst (λ (x : OpPolicy F). x.latency.max_us ≤ u64_max) (sym q.policy) tame.max_fits;
  }

  large_tier-Selection :
      (p : OpPolicy F) (r : OpResources F) (ctx : OpContext) (t : Option (SizeTier F))
      → is_data ctx.op ≡ true
      → p.size_tier ≡ t
      → IsQuiet p r
      → IsTame p
      → IsTameTier t
      → Selection p ctx (large_tier r t ctx.requested_len)
  unfolding large_tier
  large_tier-Selection p r ctx none data_ same q tame h =
      let base = base-Selection p r 0 q tame in
      record {
        profile = rw (data_, same) base.profile;
        rules = rw (data_, same) base.rules;
        no_limiter = q.unlimited;
        max_fits = base.max_fits;
      }
  large_tier-Selection p r ctx (some tier) data_ same q tame h =
      let base = base-Selection p r 0 q tame in
      elim (Bool-cases (ltb tier.threshold_bytes ctx.requested_len)) [
        | inl above ↦ record {
          profile = rw (data_, same, above) refl;
          rules = rw (data_, same, above) refl;
          no_limiter = rw above q.large_unlimited;
          max_fits = rw above h.1;
        }
        | inr below ↦ record {
          profile = rw (data_, same, below) base.profile;
          rules = rw (data_, same, below) base.rules;
          no_limiter = rw below q.unlimited;
          max_fits = rw below base.max_fits;
        }
      ]

  pub select_tier-Selection :
      (p : OpPolicy F) (r : OpResources F) (ctx : OpContext)
      → IsQuiet p r
      → IsTame p
      → Selection p ctx (select_tier r ctx.op ctx.requested_len)
  unfolding select_tier
  select_tier-Selection p r ctx q tame =
      let base = base-Selection p r 0 q tame in
      elim (Bool-cases (is_data ctx.op)) [
        | inr no_data ↦ record {
          profile = rw no_data base.profile;
          rules = rw no_data base.rules;
          no_limiter = rw no_data q.unlimited;
          max_fits = rw no_data base.max_fits;
        }
        | inl data_ ↦
            subst (Selection p ctx)
              (rw data_ (
                ap (λ (x : OpPolicy F). large_tier r x.size_tier ctx.requested_len) (sym q.policy)))
              (large_tier-Selection p r ctx p.size_tier data_ refl q tame tame.tier)
      ]

  -- Tame entries and the tame default make the policy of every kind tame.
  pub policy_of-IsTame :
      (ops : List (FsOp × OpPolicy F))
      → All (λ entry. IsTame entry.1) ops
      → (op : FsOp) → IsTame (unwrap_or_default (get_policy op ops))
  unfolding get_policy default_policy default_latency
  policy_of-IsTame [] h op = record {
    slot = omega arith;
    unlimited = refl;
    max_fits = omega arith;
    tier = tt;
  }
  policy_of-IsTame ((o, p) ∷ ops) h op = elim (Bool-cases (op_eq o op)) [
    | inl same ↦ rw same h.0
    | inr other ↦ rw other (policy_of-IsTame ops h.1 op)
  ]
