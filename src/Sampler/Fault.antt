-- ===== src/Sampler/Fault.antt =====
-- crates/fusecraft-core/src/sampler/fault.rs: the errno to inject, if any.
pub mod Laws
use fusecraft_rs.Base.{ℕ, Bool, if◌then◌else◌, List, [], ◌∷◌, Option, none, some, keep}
use fusecraft_rs.Op.{op_eq}
use fusecraft_rs.Float.{Float, Rng}
use fusecraft_rs.Config.{FaultRule}
use fusecraft_rs.Sampler.Key.{SampleKey, StdRng, random, fault_rng}

module _ {F : Type 0} ⦃fl : Float F⦄ ⦃rng : Rng F⦄ where
  open fl use {lt}

  -- The loop over the rules that match: one draw for each.
  unfoldable pub fault_loop : List (FaultRule F) → StdRng → Option ℕ
  unfolding random
  fault_loop [] r = none
  fault_loop (rule ∷ rules) r =
      let (u, r') = random r in
      let rest = fault_loop rules r' in if lt u rule.rate then some rule.errno else rest

  unfoldable pub sample_fault : List (FaultRule F) → SampleKey → Option ℕ
  unfolding fault_loop fault_rng
  sample_fault rules key = fault_loop (keep (λ r. op_eq r.op key.op) rules) (fault_rng key)
