-- ===== src/Engine/Threads/Policies.antt =====
-- The policies in an engine's table, and what a call samples by them.
use fusecraft_rs.Base.{
  ℕ, ◌≡◌, refl, ap, sym, ◌∙◌, Bool-cases, inl, inr, ltb, List, Option, none, some,
}
use fusecraft_rs.Op.{FsOp, op_eq, is_data}
use fusecraft_rs.Op.Laws.{op_eq_iff}
use fusecraft_rs.Float.{Float, Rng}
use fusecraft_rs.Config.{Config, SizeTier}
use fusecraft_rs.Sampler.Fault.{sample_fault}
use fusecraft_rs.Sampler.Latency.{sample_latency_us}
use fusecraft_rs.Engine.{
  OpContext, OpResources, SimEngine, Clock, get_resources, put_resources, put_bandwidth, is_large,
  large_tier, select_tier, new_resources, new,
}
use fusecraft_rs.Engine.Resources.{get-put, get_resources-new}
use fusecraft_rs.Engine.Lifecycle.{sample_key}
use fusecraft_rs.Engine.Slot.{fault_of, latency_of}
use fusecraft_rs.Engine.Session.Quiet.{policy_of, size_tier_of, tier_of}
use fusecraft_rs.Engine.Session.Expected.{fault_at, latency_at}
use fusecraft_rs.Engine.Threads.{charged}
use fusecraft_rs.Engine.Threads.Seen.{some-injective}

module _ {F : Type 0} ⦃fl : Float F⦄ where
  -- Every operation's resources have the policy of the configuration.
  abbrev pub HasPolicies : Config F → List (FsOp × OpResources F) → Type 0
  HasPolicies c table =
      (o : FsOp) (r : OpResources F) → get_resources o table ≡ some r → r.policy ≡ policy_of c o

  pub new-HasPolicies :
      {S : Type 0} (H : Type 0) (c : Config F) (events : S) (now : ℕ)
      → HasPolicies c (new {F = F} {H = H} {S = S} c events now).resources
  unfolding new_resources
  new-HasPolicies H c events now o r found =
      ap (λ (x : OpResources F). x.policy)
        (sym (some-injective (sym (get_resources-new H c events now o) ∙ found)))

  pub put-HasPolicies :
      (c : Config F) (op : FsOp) (r r' : OpResources F) (table : List (FsOp × OpResources F))
      → HasPolicies c table
      → get_resources op table ≡ some r
      → r'.policy ≡ r.policy
      → HasPolicies c (put_resources op r' table)
  put-HasPolicies c op r r' table known found same o x h =
      let there = sym (get-put op o r r' table found) ∙ h in
      elim (Bool-cases (op_eq op o)) [
        | inl e ↦
            let is_x : r' ≡ x = some-injective (rw e at there) in
            ap (λ (y : OpResources F). y.policy) (sym is_x)
            ∙ same
            ∙ known op r found
            ∙ ap (policy_of c) ((op_eq_iff op o).0 e)
        | inr ne ↦ known o x (rw ne at there)
      ]

  pub charged_policy :
      (ctx : OpContext) (t : Clock) (r : OpResources F) → (charged ctx t r).policy ≡ r.policy
  unfolding put_bandwidth
  charged_policy ctx t r = elim (Bool-cases (is_large r ctx.op ctx.requested_len)) [
    | inl h ↦ rw h refl
    | inr h ↦ rw h refl
  ]

  large_tier-size_tier_of :
      (r : OpResources F) (tier : Option (SizeTier F)) (n : ℕ)
      → ((large_tier r tier n).0 ≡ (size_tier_of r.policy tier n).0)
        × ((large_tier r tier n).1 ≡ (size_tier_of r.policy tier n).1)
  unfolding large_tier
  large_tier-size_tier_of r none n = (refl, refl)
  large_tier-size_tier_of r (some tier) n = elim (Bool-cases (ltb tier.threshold_bytes n)) [
    | inl above ↦ (rw above refl, rw above refl)
    | inr below ↦ (rw below refl, rw below refl)
  ]

  select_tier-tier_of :
      (r : OpResources F) (ctx : OpContext)
      → ((select_tier r ctx.op ctx.requested_len).0 ≡ (tier_of r.policy ctx).0)
        × ((select_tier r ctx.op ctx.requested_len).1 ≡ (tier_of r.policy ctx).1)
  unfolding select_tier
  select_tier-tier_of r ctx = elim (Bool-cases (is_data ctx.op)) [
    | inl data_ ↦
        let (a, b) = large_tier-size_tier_of r r.policy.size_tier ctx.requested_len in
        (rw data_ a, rw data_ b)
    | inr other ↦ (rw other refl, rw other refl)
  ]

  module _ {H S : Type 0} ⦃rng : Rng F⦄ (c : Config F) (e : SimEngine F H S) (ctx : OpContext)
      (r : OpResources F) (seed : e.seed ≡ c.seed) (policy : r.policy ≡ policy_of c ctx.op) where
    pub fault-at : fault_of e ctx r ≡ fault_at c e.seq ctx
    unfolding fault_of
    fault-at =
        ap (λ rules. sample_fault rules (sample_key e.seed ctx e.seq)) (select_tier-tier_of r ctx).1
        ∙ ap (λ p. sample_fault (tier_of p ctx).1 (sample_key e.seed ctx e.seq)) policy
        ∙ ap (λ s. sample_fault (tier_of (policy_of c ctx.op) ctx).1 (sample_key s ctx e.seq)) seed

    pub latency-at : latency_of e ctx r ≡ latency_at c e.seq ctx
    unfolding latency_of
    latency-at =
        ap (λ profile. sample_latency_us profile (sample_key e.seed ctx e.seq))
          (select_tier-tier_of r ctx).0
        ∙ ap (λ p. sample_latency_us (tier_of p ctx).0 (sample_key e.seed ctx e.seq)) policy
        ∙ ap (λ s. sample_latency_us (tier_of (policy_of c ctx.op) ctx).0 (sample_key s ctx e.seq))
            seed
