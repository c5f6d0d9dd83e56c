-- ===== src/Config/Valid.antt =====
-- What a valid configuration is (docs/config.md, "Validation rules"), and that `Config::validate`
-- accepts exactly those, whatever order the map of policies is iterated in.
use fusecraft_rs.Base.{
  ℕ, suc, ◌≤◌, ◌<◌, ◌≡◌, ◌↔◌, ◌⊎◌, refl, Bool, true, false, not, List, [], ◌∷◌, Option, none, some,
  Result, ok, err, ◌>>◌, All, arith,
}
use fusecraft_rs.Op.{FsOp, is_data}
use fusecraft_rs.Op.Laws.{op_eq_iff}
use fusecraft_rs.Error.{FsError, Message, Prefix}
use fusecraft_rs.Float.{Float, IsOrdered}
use fusecraft_rs.Config.{LatencyProfile, BandwidthProfile, FaultRule, SizeTier, OpPolicy, Config}
use fusecraft_rs.Config.Validate.{
  reject_if, validate_latency, validate_bandwidth, validate_fault, faults_from, validate_faults,
  optional_bandwidth, validate_tier, validate_op_policy, validate_ops, validate,
}

abbrev Passes : Result FsError (Unit {0}) → Type 0
Passes m = m ≡ ok tt

>>-Passes : (m k : Result FsError (Unit {0})) → Passes (m >> k) ↔ (Passes m × Passes k)
>>-Passes (ok tt) k = (λ h. (refl, h), λ h. h.1)
>>-Passes (err e) k = (λ h. cc, λ h. cc h.0)

reject_if-Passes : (b : Bool) (m : Message) → Passes (reject_if b m) ↔ (b ≡ false)
reject_if-Passes true m = (λ h. cc, λ h. cc)
reject_if-Passes false m = (λ h. refl, λ h. refl)

module _ {F : Type 0} ⦃fl : Float F⦄ where
  open fl use {zero, one, lt, le, is_finite}

  -- A finite number in [0, 1].
  abbrev pub IsFraction : F → Type 0
  IsFraction x = (is_finite x ≡ true) × (le zero x ≡ true) × (le x one ≡ true)

  abbrev pub IsNonneg : F → Type 0
  IsNonneg x = (is_finite x ≡ true) × (le zero x ≡ true)

  pub record IsValidLatency (l : LatencyProfile F) : Type 0 where
    pub median : IsNonneg l.lognormal_median_us
    pub sigma : IsNonneg l.lognormal_sigma
    pub weight : IsFraction l.pareto_weight
    pub scale : is_finite l.pareto_xm_us ≡ true
    pub shape : is_finite l.pareto_alpha ≡ true
    pub tail : (lt zero l.pareto_weight ≡ false) ⊎ (lt zero l.pareto_alpha ≡ true)
    pub range : l.base_us ≤ l.max_us

  abbrev pub IsValidBandwidth : Option (BandwidthProfile F) → Type 0
  IsValidBandwidth none = Unit {0}
  IsValidBandwidth (some b) = is_finite b.bytes_per_sec ≡ true

  abbrev pub IsValidFault : FsOp → FaultRule F → Type 0
  IsValidFault op r = (r.op ≡ op) × IsFraction r.rate

  abbrev pub IsValidTier : FsOp → Option (SizeTier F) → Type 0
  IsValidTier op none = Unit {0}
  IsValidTier op (some t) =
      (is_data op ≡ true)
      × (0 < t.threshold_bytes)
      × IsValidLatency t.large.latency
      × IsValidBandwidth t.large.bandwidth
      × All (IsValidFault op) t.large.faults

  pub record IsValidPolicy (op : FsOp) (p : OpPolicy F) : Type 0 where
    pub cap : 0 < p.concurrency_cap
    pub latency : IsValidLatency p.latency
    pub bandwidth : IsValidBandwidth p.bandwidth
    pub faults : All (IsValidFault op) p.faults
    pub size_tier : IsValidTier op p.size_tier

  pub record IsValid (c : Config F) : Type 0 where
    pub inodes : 0 < c.files.inode_count
    pub file_size : 0 < c.files.file_size_bytes
    pub policies : All (λ e. IsValidPolicy e.0 e.1) c.ops

  module _ (law : IsOrdered fl) where
    below : (a b : F) → is_finite a ≡ true → is_finite b ≡ true → lt a b ≡ not (le b a)
    below = law.total

    -- The float tests of `validate_latency` are its conditions.
    validate_latency-Passes :
        (l : LatencyProfile F) (prefix : Prefix)
        → Passes (validate_latency l prefix) ↔ IsValidLatency l
    unfolding validate_latency
    validate_latency-Passes l prefix =
        let zero_ok = law.zero_finite in
        let one_ok = law.one_finite in
        let low = below l.pareto_weight zero in
        let high = below one l.pareto_weight in
        let alpha = below zero l.pareto_alpha in
        let median = below l.lognormal_median_us zero in
        let sigma = below l.lognormal_sigma zero in (λ h. ground arith, λ v. ground arith)

    validate_bandwidth-Passes :
        (b : Option (BandwidthProfile F)) (prefix : Prefix)
        → Passes (optional_bandwidth b prefix) ↔ IsValidBandwidth b
    unfolding validate_bandwidth
    validate_bandwidth-Passes none prefix = (λ h. tt, λ h. refl)
    validate_bandwidth-Passes (some b) prefix = (λ h. ground arith, λ h. ground arith)

    validate_fault-Passes :
        (op : FsOp) (r : FaultRule F) (prefix : Prefix) (i : ℕ)
        → Passes (validate_fault r op prefix i) ↔ IsValidFault op r
    unfolding validate_fault
    validate_fault-Passes op r prefix i =
        let zero_ok = law.zero_finite in
        let one_ok = law.one_finite in
        let low = below r.rate zero in
        let high = below one r.rate in
        let same = op_eq_iff r.op op in (λ h. ground arith, λ v. ground arith)

    faults_from-Passes :
        (op : FsOp) (rs : List (FaultRule F)) (prefix : Prefix) (i : ℕ)
        → Passes (faults_from rs op prefix i) ↔ All (IsValidFault op) rs
    unfolding faults_from
    faults_from-Passes op [] prefix i = (λ h. tt, λ h. refl)
    faults_from-Passes op (r ∷ rs) prefix i =
        let first = validate_fault-Passes op r prefix i in
        let rest = faults_from-Passes op rs prefix (suc i) in
        let both = >>-Passes (validate_fault r op prefix i) (faults_from rs op prefix (suc i)) in
        (λ h. (first.0 (both.0 h).0, rest.0 (both.0 h).1), λ v. both.1 (first.1 v.0, rest.1 v.1))

    pub validate_faults-Passes :
        (op : FsOp) (rs : List (FaultRule F)) (prefix : Prefix)
        → Passes (validate_faults rs op prefix) ↔ All (IsValidFault op) rs
    unfolding validate_faults
    validate_faults-Passes op rs prefix = faults_from-Passes op rs prefix 0

    validate_tier-Passes :
        (op : FsOp) (t : Option (SizeTier F)) (prefix : Prefix)
        → Passes (validate_tier t op prefix) ↔ IsValidTier op t
    unfolding validate_tier
    validate_tier-Passes op none prefix = (λ h. tt, λ h. refl)
    validate_tier-Passes op (some t) prefix =
        let l = validate_latency-Passes t.large.latency (Prefix.latency (Prefix.large prefix)) in
        let b =
          validate_bandwidth-Passes t.large.bandwidth (Prefix.bandwidth (Prefix.large prefix)) in
        let f = validate_faults-Passes op t.large.faults (Prefix.faults (Prefix.large prefix)) in
        (λ h. ground (arith, l, b, f), λ v. ground (arith, l, b, f))

    pub validate_op_policy-Passes :
        (op : FsOp) (p : OpPolicy F) (prefix : Prefix)
        → Passes (validate_op_policy op p prefix) ↔ IsValidPolicy op p
    unfolding validate_op_policy
    validate_op_policy-Passes op p prefix =
        let l = validate_latency-Passes p.latency (Prefix.latency prefix) in
        let b = validate_bandwidth-Passes p.bandwidth (Prefix.bandwidth prefix) in
        let f = validate_faults-Passes op p.faults (Prefix.faults prefix) in
        let t = validate_tier-Passes op p.size_tier prefix in
        (λ h. ground (arith, l, b, f, t), λ v. ground (arith, l, b, f, t))

    validate_ops-Passes :
        (es : List (FsOp × OpPolicy F))
        → Passes (validate_ops es) ↔ All (λ e. IsValidPolicy e.0 e.1) es
    unfolding validate_ops
    validate_ops-Passes [] = (λ h. tt, λ h. refl)
    validate_ops-Passes ((op, p) ∷ es) =
        let first = validate_op_policy-Passes op p (Prefix.ops op) in
        let rest = validate_ops-Passes es in
        let both = >>-Passes (validate_op_policy op p (Prefix.ops op)) (validate_ops es) in
        (λ h. (first.0 (both.0 h).0, rest.0 (both.0 h).1), λ v. both.1 (first.1 v.0, rest.1 v.1))

    -- `validate` accepts a configuration exactly when it is valid, provided that comparisons of
    -- finite numbers are total.
    pub validate-IsValid : (c : Config F) → (validate c ≡ ok tt) ↔ IsValid c
    unfolding validate
    validate-IsValid c = (
      λ h. ground (arith, validate_ops-Passes c.ops),
      λ v. ground (arith, validate_ops-Passes c.ops),
    )
