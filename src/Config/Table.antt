-- ===== src/Config/Table.antt =====
-- crates/fusecraft-core/src/config.rs: what the serde attributes make of a TOML table, and the table
-- that a configuration is written to. A table is a record of the keys that are read or written, each
-- `none` where the key is absent; the text of a table is the toml crate's. Keys with a `default`
-- attribute take it, the others must be there, and an absent `Option` is written as no key.
pub mod Write
pub mod Laws
use Prim.Native.String.{String}
use fusecraft_rs.Base.{
  ℕ, Bool, false, List, [], ◌∷◌, Option, none, some, map, Result, ok, err, ◌>>=◌, map_ok,
}
use fusecraft_rs.Op.{FsOp}
use fusecraft_rs.Error.{Libc, FsError}
use fusecraft_rs.Float.{Float}
use fusecraft_rs.Config.{
  MountConfig, RootLayout, flat, WriteMode, discard, FilesConfig, LatencyProfile, BandwidthProfile,
  FaultRule, LargeTierPolicy, SizeTier, OpPolicy, MetricsConfig, Config, default_seed,
  default_fs_name, default_subtype, default_true, default_inode_count, default_file_size_bytes,
  default_concurrency_cap, default_max_us, default_mount, default_files, default_latency,
  default_lognormal_median, default_lognormal_sigma, default_pareto_xm, default_pareto_alpha,
  from_raw_bandwidth, from_raw_fault,
}

-- An errno is read as a name and written as a number.
pub data Errno : Type 0 where
  name : String → Errno
  number : ℕ → Errno

pub data TableError : Type 0 where
  missing_field invalid_type : String → TableError
  custom : FsError → TableError

pub record MountTable : Type 0 where
  pub fs_name : Option String
  pub subtype : Option String
  pub auto_unmount : Option Bool
  pub default_permissions : Option Bool
  pub read_only : Option Bool
  pub direct_io : Option Bool

pub record FilesTable : Type 0 where
  pub inode_count : Option ℕ
  pub file_size_bytes : Option ℕ
  pub root_layout : Option RootLayout
  pub write_mode : Option WriteMode

pub record LatencyTable (F : Type 0) : Type 0 where
  pub base_us : Option ℕ
  pub lognormal_median_us : Option F
  pub lognormal_sigma : Option F
  pub pareto_weight : Option F
  pub pareto_xm_us : Option F
  pub pareto_alpha : Option F
  pub max_us : Option ℕ

pub record BandwidthTable (F : Type 0) : Type 0 where
  pub mib_per_sec : Option F
  pub bytes_per_sec : Option F
  pub burst_bytes : Option ℕ

pub record FaultTable (F : Type 0) : Type 0 where
  pub op : Option FsOp
  pub errno : Option Errno
  pub rate : Option F

pub record LargeTable (F : Type 0) : Type 0 where
  pub latency : Option (LatencyTable F)
  pub bandwidth : Option (BandwidthTable F)
  pub faults : Option (List (FaultTable F))

pub record TierTable (F : Type 0) : Type 0 where
  pub threshold_bytes : Option ℕ
  pub large : Option (LargeTable F)

pub record PolicyTable (F : Type 0) : Type 0 where
  pub concurrency_cap : Option ℕ
  pub queue_cap : Option ℕ
  pub latency : Option (LatencyTable F)
  pub bandwidth : Option (BandwidthTable F)
  pub faults : Option (List (FaultTable F))
  pub size_tier : Option (TierTable F)

pub record ConfigTable (F : Type 0) : Type 0 where
  pub seed : Option ℕ
  pub mount : Option MountTable
  pub files : Option FilesTable
  pub ops : Option (List (FsOp × PolicyTable F))
  pub jsonl_path : Option String

-- A key with a `default` attribute, and a key without.
abbrev pub unwrap_or {ℓ} : {A : Type ℓ} → Option A → A → A
unwrap_or none a = a
unwrap_or (some x) a = x

abbrev pub required {ℓ} : {A : Type ℓ} → String → Option A → Result TableError A
required key none = err (missing_field key)
required key (some a) = ok a

-- A key of an optional table, and the rows of an array of tables.
abbrev pub optional {ℓ κ} :
    {A : Type ℓ} {B : Type κ} → (A → Result TableError B) → Option A → Result TableError (Option B)
optional read none = ok none
optional read (some a) = map_ok some (read a)

unfoldable pub rows {ℓ κ} :
    {A : Type ℓ} {B : Type κ} → (A → Result TableError B) → List A → Result TableError (List B)
rows read [] = ok []
rows read (x ∷ xs) = read x >>= λ y. map_ok (λ ys. y ∷ ys) (rows read xs)

abbrev pub to_custom {ℓ} : {A : Type ℓ} → Result FsError A → Result TableError A
to_custom (ok a) = ok a
to_custom (err e) = err (custom e)

unfoldable pub read_mount : Option MountTable → MountConfig
read_mount none = default_mount
read_mount (some t) = record {
  fs_name = unwrap_or t.fs_name default_fs_name;
  subtype = unwrap_or t.subtype default_subtype;
  auto_unmount = unwrap_or t.auto_unmount default_true;
  default_permissions = unwrap_or t.default_permissions default_true;
  read_only = unwrap_or t.read_only false;
  direct_io = unwrap_or t.direct_io false;
}

unfoldable pub read_files : Option FilesTable → FilesConfig
read_files none = default_files
read_files (some t) = record {
  inode_count = unwrap_or t.inode_count default_inode_count;
  file_size_bytes = unwrap_or t.file_size_bytes default_file_size_bytes;
  root_layout = unwrap_or t.root_layout flat;
  write_mode = unwrap_or t.write_mode discard;
}

-- `errno: String`
unfoldable pub read_errno : Errno → Result TableError String
read_errno (name s) = ok s
read_errno (number n) = err (invalid_type "errno")

module _ {F : Type 0} ⦃fl : Float F⦄ ⦃libc : Libc⦄ where
  unfoldable pub read_latency : Option (LatencyTable F) → LatencyProfile F
  read_latency none = default_latency
  read_latency (some t) = record {
    base_us = unwrap_or t.base_us 0;
    lognormal_median_us = unwrap_or t.lognormal_median_us default_lognormal_median;
    lognormal_sigma = unwrap_or t.lognormal_sigma default_lognormal_sigma;
    pareto_weight = unwrap_or t.pareto_weight fl.zero;
    pareto_xm_us = unwrap_or t.pareto_xm_us default_pareto_xm;
    pareto_alpha = unwrap_or t.pareto_alpha default_pareto_alpha;
    max_us = unwrap_or t.max_us default_max_us;
  }

  unfoldable pub read_bandwidth : BandwidthTable F → Result TableError (BandwidthProfile F)
  read_bandwidth t = do
    rate ← required "mib_per_sec" t.mib_per_sec
    burst ← required "burst_bytes" t.burst_bytes
    ok (from_raw_bandwidth rate burst)

  unfoldable pub read_fault : FaultTable F → Result TableError (FaultRule F)
  unfolding read_errno
  read_fault t = do
    op ← required "op" t.op
    value ← required "errno" t.errno
    errno ← read_errno value
    rate ← required "rate" t.rate
    to_custom (from_raw_fault op errno rate)

  unfoldable pub read_large : LargeTable F → Result TableError (LargeTierPolicy F)
  read_large t = do
    bandwidth ← optional read_bandwidth t.bandwidth
    faults ← rows read_fault (unwrap_or t.faults [])
    ok (record { latency = read_latency t.latency; bandwidth = bandwidth; faults = faults })

  unfoldable pub read_tier : TierTable F → Result TableError (SizeTier F)
  read_tier t = do
    threshold ← required "threshold_bytes" t.threshold_bytes
    table ← required "large" t.large
    large ← read_large table
    ok (record { threshold_bytes = threshold; large = large })

  unfoldable pub read_policy : PolicyTable F → Result TableError (OpPolicy F)
  read_policy t = do
    bandwidth ← optional read_bandwidth t.bandwidth
    faults ← rows read_fault (unwrap_or t.faults [])
    size_tier ← optional read_tier t.size_tier
    ok (record {
      concurrency_cap = unwrap_or t.concurrency_cap default_concurrency_cap;
      queue_cap = unwrap_or t.queue_cap 0;
      latency = read_latency t.latency;
      bandwidth = bandwidth;
      faults = faults;
      size_tier = size_tier;
    })

  unfoldable pub read_entry : FsOp × PolicyTable F → Result TableError (FsOp × OpPolicy F)
  read_entry (op, t) = map_ok (λ p. (op, p)) (read_policy t)

  unfoldable pub read_config : ConfigTable F → Result TableError (Config F)
  read_config t = do
    ops ← rows read_entry (unwrap_or t.ops [])
    ok (record {
      seed = unwrap_or t.seed default_seed;
      mount = read_mount t.mount;
      files = read_files t.files;
      ops = ops;
      metrics = record { jsonl_path = t.jsonl_path };
    })
