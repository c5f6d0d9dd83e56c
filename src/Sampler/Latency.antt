-- ===== src/Sampler/Latency.antt =====
-- crates/fusecraft-core/src/sampler/latency.rs: the latency of a call in microseconds.
pub mod Laws
use fusecraft_rs.Base.{ℕ, Bool, ◌||◌, if◌then◌else◌, min}
use fusecraft_rs.Float.{Float, Rng}
use fusecraft_rs.Config.{LatencyProfile}
use fusecraft_rs.Sampler.Key.{SampleKey, StdRng, random, latency_rng}

module _ {F : Type 0} ⦃fl : Float F⦄ ⦃rng : Rng F⦄ where
  open fl use {zero, one, lit, pi, min_positive, lt, le, add, mul, div, powf, fmin, fmax, ln, exp}
  open fl use {sqrt, cos, round, of_u64, as_u64}

  -- Box-Muller: two draws.
  unfoldable pub sample_standard_normal : StdRng → F × StdRng
  unfolding random
  sample_standard_normal r =
      let (u, r') = random r in
      let (u2, r'') = random r' in
      let u1 = fmax u min_positive in
      (mul (sqrt (mul (fl.neg (lit 2 0)) (ln u1))) (cos (mul (mul (lit 2 0) pi) u2)), r'')

  unfoldable pub sample_lognormal : StdRng → F → F → F × StdRng
  unfolding sample_standard_normal
  sample_lognormal r median sigma =
      let (z, r') = sample_standard_normal r in
      if le median zero || le sigma zero
      then (fmax median zero, r)
      else (exp (add (ln median) (mul sigma z)), r')

  unfoldable pub sample_pareto : StdRng → F → F → F × StdRng
  unfolding random
  sample_pareto r xm alpha =
      let (u, r') = random r in (div xm (powf (fmax u min_positive) (div one alpha)), r')

  -- The lognormal body or the Pareto tail.
  unfoldable pub sample_body : LatencyProfile F → StdRng → F
  unfolding sample_lognormal sample_pareto random
  sample_body p r =
      let (u, r') = random r in
      if lt zero p.pareto_weight
      then if lt u p.pareto_weight
        then (sample_pareto r' p.pareto_xm_us p.pareto_alpha).0
        else (sample_lognormal r' p.lognormal_median_us p.lognormal_sigma).0
      else (sample_lognormal r p.lognormal_median_us p.lognormal_sigma).0

  unfoldable pub sample_latency_us : LatencyProfile F → SampleKey → ℕ
  unfolding sample_body latency_rng
  sample_latency_us p key =
      let total = add (of_u64 p.base_us) (sample_body p (latency_rng key)) in
      let clamped = fmax (fmin total (of_u64 p.max_us)) zero in
      min (as_u64 (round clamped)) p.max_us
