-- ===== src/Sampler/Latency/Laws.antt =====
-- The bound on a sampled latency, and the profiles whose latency does not depend on the draws.
use fusecraft_rs.Base.{ℕ, ◌+◌, ◌≤◌, ◌^◌, ◌≡◌, ◌∙◌, true, false, ◌||◌, min, arith}
use fusecraft_rs.Float.{Float, Rng, IsConversion}
use fusecraft_rs.Config.{LatencyProfile}
use fusecraft_rs.Sampler.Key.{SampleKey, StdRng, latency_rng}
use fusecraft_rs.Sampler.Latency.{sample_lognormal, sample_body, sample_latency_us}

module _ {F : Type 0} ⦃fl : Float F⦄ ⦃rng : Rng F⦄ where
  open fl use {zero, lt, le, add, fmin, fmax, round, of_u64, as_u64}

  -- No latency exceeds the profile's maximum, whatever the floats do.
  pub sample_latency_us-le :
      (p : LatencyProfile F) (key : SampleKey) → sample_latency_us p key ≤ p.max_us
  unfolding sample_latency_us
  sample_latency_us-le p key = omega arith

  -- A profile with no randomness: no Pareto tail, and a lognormal body that is its median.
  pub record IsConstant (p : LatencyProfile F) (median : ℕ) : Type 0 where
    pub no_tail : lt zero p.pareto_weight ≡ false
    pub degenerate : (le p.lognormal_median_us zero || le p.lognormal_sigma zero) ≡ true
    pub median_us : p.lognormal_median_us ≡ of_u64 median

  sample_body_constant :
      (p : LatencyProfile F) (median : ℕ) (r : StdRng)
      → IsConstant p median
      → sample_body p r ≡ fmax (of_u64 median) zero
  unfolding sample_body sample_lognormal
  sample_body_constant p median r c = rw (c.no_tail, c.degenerate, c.median_us)

  -- For a profile without Pareto tail whose lognormal body is its whole median, the latency is
  -- base plus median, cut at the maximum, for every key, provided that base plus median is at
  -- most 2^53 and the conversions between floats and `u64` are exact up to there.
  pub sample_latency_us_constant :
      (law : IsConversion fl) (p : LatencyProfile F) (median : ℕ) (key : SampleKey)
      → IsConstant p median
      → p.base_us + median ≤ 2 ^ 53
      → sample_latency_us p key ≡ min (p.base_us + median) p.max_us
  unfolding sample_latency_us
  sample_latency_us_constant law p median key c exact =
      let total = p.base_us + median in
      let body : sample_body p (latency_rng key) ≡ of_u64 median =
        sample_body_constant p median (latency_rng key) c ∙ law.fmax_zero median in
      rw
        (
          body,
          law.add-of_u64 p.base_us median exact,
          law.fmin-of_u64,
          law.fmax_zero,
          law.round-of_u64,
          law.as_u64-of_u64 (min total p.max_us) (omega arith),
        )
        (omega arith)
