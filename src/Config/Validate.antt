-- ===== src/Config/Validate.antt =====
-- crates/fusecraft-core/src/config.rs: `Config::validate` and the checks that it calls.
use fusecraft_rs.Base.{
  ℕ, suc, Bool, true, false, not, ◌==◌, ◌||◌, ◌&&◌, ltb, List, [], ◌∷◌, Option, none, some, Result,
  ok, err, ◌>>◌,
}
use Prim.Native.String.{String}
use fusecraft_rs.Op.{FsOp, op_eq, is_data}
use fusecraft_rs.Error
use fusecraft_rs.Error.{FsError, Message, Prefix}
use fusecraft_rs.Float.{Float}
use fusecraft_rs.Config.{LatencyProfile, BandwidthProfile, FaultRule, SizeTier, OpPolicy, Config}

-- `if test { return Err(FsError::Config(message)) }`
abbrev pub reject_if : Bool → Message → Result FsError (Unit {0})
reject_if true m = err (Error.config m)
reject_if false m = ok tt

module _ {F : Type 0} ⦃fl : Float F⦄ where
  open fl use {zero, one, lt, le, is_finite}

  -- The loop over the named fields.
  unfoldable pub all_finite : List (String × F) → Prefix → Result FsError (Unit {0})
  all_finite [] prefix = ok tt
  all_finite ((name, value) ∷ rest) prefix = do
    reject_if (not (is_finite value)) (Error.latency_not_finite prefix name)
    all_finite rest prefix

  unfoldable pub validate_latency : LatencyProfile F → Prefix → Result FsError (Unit {0})
  unfolding all_finite
  validate_latency l prefix = do
    all_finite
        (("lognormal_median_us", l.lognormal_median_us)
          ∷ ("lognormal_sigma", l.lognormal_sigma)
          ∷ ("pareto_weight", l.pareto_weight)
          ∷ ("pareto_xm_us", l.pareto_xm_us)
          ∷ ("pareto_alpha", l.pareto_alpha)
          ∷ [])
        prefix
    reject_if (ltb l.max_us l.base_us) (Error.max_below_base prefix)
    reject_if (lt l.pareto_weight zero || lt one l.pareto_weight) (Error.weight_out_of_range prefix)
    reject_if (lt zero l.pareto_weight && le l.pareto_alpha zero) (Error.alpha_not_positive prefix)
    reject_if (lt l.lognormal_median_us zero) (Error.median_negative prefix)
    reject_if (lt l.lognormal_sigma zero) (Error.sigma_negative prefix)

  unfoldable pub validate_bandwidth : BandwidthProfile F → Prefix → Result FsError (Unit {0})
  validate_bandwidth b prefix =
      reject_if (not (is_finite b.bytes_per_sec)) (Error.bandwidth_not_finite prefix)

  -- The round for rule `i` of `validate_faults`.
  unfoldable pub validate_fault : FaultRule F → FsOp → Prefix → ℕ → Result FsError (Unit {0})
  validate_fault r expected prefix i = do
    reject_if (not (op_eq r.op expected)) (Error.fault_op_mismatch prefix i r.op expected)
    reject_if (not (is_finite r.rate) || lt r.rate zero || lt one r.rate)
        (Error.fault_rate_out_of_range prefix i)

  unfoldable pub faults_from : List (FaultRule F) → FsOp → Prefix → ℕ → Result FsError (Unit {0})
  faults_from [] expected prefix i = ok tt
  faults_from (r ∷ rs) expected prefix i = do
    validate_fault r expected prefix i
    faults_from rs expected prefix (suc i)

  unfoldable pub validate_faults : List (FaultRule F) → FsOp → Prefix → Result FsError (Unit {0})
  validate_faults rules expected prefix = faults_from rules expected prefix 0

  abbrev pub optional_bandwidth : Option (BandwidthProfile F) → Prefix → Result FsError (Unit {0})
  optional_bandwidth none prefix = ok tt
  optional_bandwidth (some b) prefix = validate_bandwidth b prefix

  -- The block for `policy.size_tier`.
  unfoldable pub validate_tier : Option (SizeTier F) → FsOp → Prefix → Result FsError (Unit {0})
  validate_tier none op prefix = ok tt
  validate_tier (some t) op prefix = do
    reject_if (not (is_data op)) (Error.tier_on_metadata prefix op)
    reject_if (t.threshold_bytes == 0) (Error.threshold_zero prefix)
    validate_latency t.large.latency (Prefix.latency (Prefix.large prefix))
    optional_bandwidth t.large.bandwidth (Prefix.bandwidth (Prefix.large prefix))
    validate_faults t.large.faults op (Prefix.faults (Prefix.large prefix))

  unfoldable pub validate_op_policy : FsOp → OpPolicy F → Prefix → Result FsError (Unit {0})
  validate_op_policy op p prefix = do
    reject_if (p.concurrency_cap == 0) (Error.concurrency_cap_zero prefix)
    validate_latency p.latency (Prefix.latency prefix)
    optional_bandwidth p.bandwidth (Prefix.bandwidth prefix)
    validate_faults p.faults op (Prefix.faults prefix)
    validate_tier p.size_tier op prefix

  -- The loop over `self.ops`.
  unfoldable pub validate_ops : List (FsOp × OpPolicy F) → Result FsError (Unit {0})
  validate_ops [] = ok tt
  validate_ops ((op, p) ∷ rest) = do validate_op_policy op p (Prefix.ops op); validate_ops rest

  unfoldable pub validate : Config F → Result FsError (Unit {0})
  validate c = do
    reject_if (c.files.inode_count == 0) Error.inode_count_zero
    reject_if (c.files.file_size_bytes == 0) Error.file_size_zero
    validate_ops c.ops
