-- ===== src/Config/Table/Laws.antt =====
-- Which configurations are read back from the table that they are written to, and what the tables
-- without keys stand for.
use fusecraft_rs.Base.{
  ◌≡◌, ◌↔◌, ◌⊎◌, inl, inr, refl, Bool, true, false, List, [], ◌∷◌, Option, none, some, map, Result,
  ok, err, All, arith,
}
use fusecraft_rs.Op.{FsOp}
use fusecraft_rs.Error.{Libc}
use fusecraft_rs.Float.{Float}
use fusecraft_rs.Config.{
  BandwidthProfile, FaultRule, SizeTier, OpPolicy, Config, default_config, default_mount,
  default_files, default_latency, default_policy,
}
use fusecraft_rs.Config.Table.{
  rows, optional, read_mount, read_files, read_latency, read_bandwidth, read_errno, read_fault,
  read_large, read_tier, read_policy, read_entry, read_config, ConfigTable, MountTable, FilesTable,
  LatencyTable, PolicyTable, missing_field, invalid_type,
}
use fusecraft_rs.Config.Table.Write.{
  map_some, write_mount, write_files, write_latency, write_bandwidth, write_fault, write_large,
  write_tier, write_policy, write_entry, write_config,
}

abbrev pub no_mount_keys : MountTable
no_mount_keys = record {
  fs_name = none;
  subtype = none;
  auto_unmount = none;
  default_permissions = none;
  read_only = none;
  direct_io = none;
}

abbrev pub no_files_keys : FilesTable
no_files_keys = record {
  inode_count = none;
  file_size_bytes = none;
  root_layout = none;
  write_mode = none;
}

module _ {F : Type 0} where
  abbrev pub no_latency_keys : LatencyTable F
  no_latency_keys = record {
    base_us = none;
    lognormal_median_us = none;
    lognormal_sigma = none;
    pareto_weight = none;
    pareto_xm_us = none;
    pareto_alpha = none;
    max_us = none;
  }

  abbrev pub no_policy_keys : PolicyTable F
  no_policy_keys = record {
    concurrency_cap = none;
    queue_cap = none;
    latency = none;
    bandwidth = none;
    faults = none;
    size_tier = none;
  }

  abbrev pub no_keys : ConfigTable F
  no_keys = record { seed = none; mount = none; files = none; ops = none; jsonl_path = none }

  -- No bandwidth profile and no fault rule, in the policy and in its large tier.
  abbrev pub IsPlainTier : Option (SizeTier F) → Type 0
  IsPlainTier none = Unit {0}
  IsPlainTier (some t) = (t.large.bandwidth ≡ none) × (t.large.faults ≡ [])

  abbrev pub IsPlain : OpPolicy F → Type 0
  IsPlain p = (p.bandwidth ≡ none) × (p.faults ≡ []) × IsPlainTier p.size_tier

abbrev is_err {ℓ κ} : {E : Type ℓ} {A : Type κ} → Result E A → Bool
is_err (ok a) = false
is_err (err e) = true

module _ {F : Type 0} ⦃fl : Float F⦄ ⦃libc : Libc⦄ where
  -- A written profile lacks the key that is read; a written rule has a number for its errno.
  written_bandwidth :
      (b : Option (BandwidthProfile F))
      → (b ≡ none)
        ⊎ (optional read_bandwidth (map_some write_bandwidth b) ≡ err (missing_field "mib_per_sec"))
  unfolding read_bandwidth write_bandwidth
  written_bandwidth none = inl refl
  written_bandwidth (some b) = inr refl

  rows_faults :
      (rs : List (FaultRule F))
      → (rs ≡ []) ⊎ (rows read_fault (map write_fault rs) ≡ err (invalid_type "errno"))
  unfolding rows read_fault write_fault read_errno
  rows_faults [] = inl refl
  rows_faults (r ∷ rs) = inr refl

  read_tier_written :
      (t : Option (SizeTier F))
      → (IsPlainTier t × (optional read_tier (map_some write_tier t) ≡ ok t))
        ⊎ (is_err (optional read_tier (map_some write_tier t)) ≡ true)
  unfolding read_tier read_large read_latency write_tier write_large write_latency rows
  read_tier_written none = inl (tt, refl)
  read_tier_written (some t) =
      let b = written_bandwidth t.large.bandwidth in
      let f = rows_faults t.large.faults in ground arith

  -- A written policy is read back if it is plain, and is an error otherwise.
  read_policy_written :
      (p : OpPolicy F)
      → (IsPlain p × (read_policy (write_policy p) ≡ ok p))
        ⊎ (is_err (read_policy (write_policy p)) ≡ true)
  unfolding read_policy write_policy read_latency write_latency rows
  read_policy_written p =
      let b = written_bandwidth p.bandwidth in
      let f = rows_faults p.faults in let t = read_tier_written p.size_tier in ground arith

  rows-IsPlain :
      (es : List (FsOp × OpPolicy F))
      → (All (λ e. IsPlain e.1) es × (rows read_entry (map write_entry es) ≡ ok es))
        ⊎ (is_err (rows read_entry (map write_entry es)) ≡ true)
  unfolding rows read_entry write_entry
  rows-IsPlain [] = inl (tt, refl)
  rows-IsPlain ((op, p) ∷ es) =
      let rest = rows-IsPlain es in let first = read_policy_written p in ground arith

  read_tier_plain :
      (t : Option (SizeTier F)) → IsPlainTier t → optional read_tier (map_some write_tier t) ≡ ok t
  unfolding read_tier read_large read_latency write_tier write_large write_latency rows
  read_tier_plain none plain = refl
  read_tier_plain (some t) plain = ground arith

  rows_ok :
      (es : List (FsOp × OpPolicy F))
      → All (λ e. IsPlain e.1) es
      → rows read_entry (map write_entry es) ≡ ok es
  unfolding rows read_entry write_entry read_policy write_policy read_latency write_latency
  rows_ok [] plain = refl
  rows_ok ((op, p) ∷ es) plain =
      let rest = rows_ok es plain.1 in
      let tier = read_tier_plain p.size_tier plain.0.2 in ground arith

  -- A configuration is read back from the table that it is written to exactly when no policy and
  -- no large tier has a bandwidth profile or a fault rule.
  pub write_config-read_config :
      (c : Config F) → (read_config (write_config c) ≡ ok c) ↔ All (λ e. IsPlain e.1) c.ops
  unfolding read_config write_config read_mount read_files write_mount write_files
  write_config-read_config c =
      let entries = rows-IsPlain c.ops in
      (λ h. ground arith, λ plain. let written = rows_ok c.ops plain in ground arith)

  -- A table without keys reads as the defaults: the attributes agree with the `Default` impls.
  pub read_config_empty :
      (read_config (no_keys {F = F}) ≡ ok default_config)
      × (read_policy (no_policy_keys {F = F}) ≡ ok default_policy)
      × (read_latency (some (no_latency_keys {F = F})) ≡ default_latency)
      × (read_mount (some no_mount_keys) ≡ default_mount)
      × (read_files (some no_files_keys) ≡ default_files)
  unfolding read_config read_policy read_latency read_mount read_files rows default_config
      default_policy default_latency default_mount default_files
  read_config_empty = (refl, refl, refl, refl, refl)
