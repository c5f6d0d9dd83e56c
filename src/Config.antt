-- ===== src/Config.antt =====
-- crates/fusecraft-core/src/config.rs: the configuration types, their defaults and errno names.
-- The TOML text and serde's derived (de)serialisers are not modelled; a value of these types is a
-- parsed file. `F` stands for `f64`. `Config.ops`, a HashMap, is the list of its entries in the
-- order in which the map is iterated.
pub mod Validate
pub mod Valid
pub mod Table
use Prim.Native.String.{String}
use text.Mathlib.Text.{◌==◌ as str_eq}
use fusecraft_rs.Base.{
  ℕ, ◌≡◌, Bool, true, false, if◌then◌else◌, List, [], ◌∷◌, Option, none, some, Result, ok, err,
  map_ok,
}
use fusecraft_rs.Op.{FsOp, op_eq}
use fusecraft_rs.Error.{Libc, FsError, config, unknown_errno}
use fusecraft_rs.Float.{Float}

pub record MountConfig : Type 0 where
  pub fs_name : String
  pub subtype : String
  pub auto_unmount : Bool
  pub default_permissions : Bool
  pub read_only : Bool
  pub direct_io : Bool

pub data RootLayout : Type 0 where
  flat : RootLayout

pub data WriteMode : Type 0 where
  discard : WriteMode

pub record FilesConfig : Type 0 where
  pub inode_count : ℕ
  pub file_size_bytes : ℕ
  pub root_layout : RootLayout
  pub write_mode : WriteMode

pub record LatencyProfile (F : Type 0) : Type 0 where
  pub base_us : ℕ
  pub lognormal_median_us : F
  pub lognormal_sigma : F
  pub pareto_weight : F
  pub pareto_xm_us : F
  pub pareto_alpha : F
  pub max_us : ℕ

pub record BandwidthProfile (F : Type 0) : Type 0 where
  pub bytes_per_sec : F
  pub burst_bytes : ℕ

pub record FaultRule (F : Type 0) : Type 0 where
  pub op : FsOp
  pub errno : ℕ
  pub rate : F

pub record LargeTierPolicy (F : Type 0) : Type 0 where
  pub latency : LatencyProfile F
  pub bandwidth : Option (BandwidthProfile F)
  pub faults : List (FaultRule F)

pub record SizeTier (F : Type 0) : Type 0 where
  pub threshold_bytes : ℕ
  pub large : LargeTierPolicy F

pub record OpPolicy (F : Type 0) : Type 0 where
  pub concurrency_cap : ℕ
  pub queue_cap : ℕ
  pub latency : LatencyProfile F
  pub bandwidth : Option (BandwidthProfile F)
  pub faults : List (FaultRule F)
  pub size_tier : Option (SizeTier F)

pub record MetricsConfig : Type 0 where
  pub jsonl_path : Option String

pub record Config (F : Type 0) : Type 0 where
  pub seed : ℕ
  pub mount : MountConfig
  pub files : FilesConfig
  pub ops : List (FsOp × OpPolicy F)
  pub metrics : MetricsConfig

-- The functions that serde calls for a key that is missing.
abbrev pub default_seed : ℕ
default_seed = 42

abbrev pub default_fs_name : String
default_fs_name = "fusecraft"

abbrev pub default_subtype : String
default_subtype = "sim"

abbrev pub default_true : Bool
default_true = true

abbrev pub default_inode_count : ℕ
default_inode_count = 1000

abbrev pub default_file_size_bytes : ℕ
default_file_size_bytes = 65536

abbrev pub default_concurrency_cap : ℕ
default_concurrency_cap = 64

abbrev pub default_max_us : ℕ
default_max_us = 1000000

unfoldable pub default_mount : MountConfig
default_mount = record {
  fs_name = default_fs_name;
  subtype = default_subtype;
  auto_unmount = true;
  default_permissions = true;
  read_only = false;
  direct_io = false;
}

unfoldable pub default_files : FilesConfig
default_files = record {
  inode_count = default_inode_count;
  file_size_bytes = default_file_size_bytes;
  root_layout = flat;
  write_mode = discard;
}

-- `self.ops.get(op)`
unfoldable pub get_policy : {F : Type 0} → FsOp → List (FsOp × OpPolicy F) → Option (OpPolicy F)
get_policy op [] = none
get_policy op ((o, p) ∷ rest) = if op_eq o op then some p else get_policy op rest

module _ {F : Type 0} ⦃fl : Float F⦄ where
  open fl use {zero, lit, mul}

  abbrev pub default_lognormal_median : F
  default_lognormal_median = lit 100 0

  abbrev pub default_lognormal_sigma : F
  default_lognormal_sigma = lit 5 1

  abbrev pub default_pareto_xm : F
  default_pareto_xm = lit 1000 0

  abbrev pub default_pareto_alpha : F
  default_pareto_alpha = lit 15 1

  unfoldable pub default_latency : LatencyProfile F
  default_latency = record {
    base_us = 0;
    lognormal_median_us = default_lognormal_median;
    lognormal_sigma = default_lognormal_sigma;
    pareto_weight = zero;
    pareto_xm_us = default_pareto_xm;
    pareto_alpha = default_pareto_alpha;
    max_us = default_max_us;
  }

  unfoldable pub default_policy : OpPolicy F
  unfolding default_latency
  default_policy = record {
    concurrency_cap = default_concurrency_cap;
    queue_cap = 0;
    latency = default_latency;
    bandwidth = none;
    faults = [];
    size_tier = none;
  }

  unfoldable pub default_config : Config F
  unfolding default_mount default_files
  default_config = record {
    seed = default_seed;
    mount = default_mount;
    files = default_files;
    ops = [];
    metrics = record { jsonl_path = none };
  }

  -- `BandwidthProfile::deserialize`, on the fields of the raw table.
  unfoldable pub from_raw_bandwidth : F → ℕ → BandwidthProfile F
  from_raw_bandwidth mib_per_sec burst = record {
    bytes_per_sec = mul (mul mib_per_sec (lit 1024 0)) (lit 1024 0);
    burst_bytes = burst;
  }

unfoldable pub parse_errno : ⦃libc : Libc⦄ → String → Result FsError ℕ
parse_errno ⦃libc⦄ name =
    if str_eq name "EIO"
    then ok libc.eio
    else if str_eq name "ENOENT"
    then ok libc.enoent
    else if str_eq name "ESTALE"
    then ok libc.estale
    else if str_eq name "ENOSPC"
    then ok libc.enospc
    else if str_eq name "EAGAIN"
    then ok libc.eagain
    else if str_eq name "EINTR"
    then ok libc.eintr
    else err (config (unknown_errno name))

-- `FaultRule::deserialize`, on the fields of the raw table.
unfoldable pub from_raw_fault :
    {F : Type 0} ⦃libc : Libc⦄ → FsOp → String → F → Result FsError (FaultRule F)
unfolding parse_errno
from_raw_fault op name rate =
    map_ok (λ e. record { op = op; errno = e; rate = rate }) (parse_errno name)
