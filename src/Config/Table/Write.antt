-- ===== src/Config/Table/Write.antt =====
-- crates/fusecraft-core/src/config.rs: the table that a configuration is written to by the derived
-- `Serialize`, each field under its own name.
use fusecraft_rs.Base.{Option, none, some, map}
use fusecraft_rs.Op.{FsOp}
use fusecraft_rs.Config.{
  MountConfig, FilesConfig, LatencyProfile, BandwidthProfile, FaultRule, LargeTierPolicy, SizeTier,
  OpPolicy, Config,
}
use fusecraft_rs.Config.Table.{
  number, MountTable, FilesTable, LatencyTable, BandwidthTable, FaultTable, LargeTable, TierTable,
  PolicyTable, ConfigTable,
}

abbrev pub map_some {ℓ κ} : {A : Type ℓ} {B : Type κ} → (A → B) → Option A → Option B
map_some f none = none
map_some f (some a) = some (f a)

unfoldable pub write_mount : MountConfig → MountTable
write_mount m = record {
  fs_name = some m.fs_name;
  subtype = some m.subtype;
  auto_unmount = some m.auto_unmount;
  default_permissions = some m.default_permissions;
  read_only = some m.read_only;
  direct_io = some m.direct_io;
}

unfoldable pub write_files : FilesConfig → FilesTable
write_files f = record {
  inode_count = some f.inode_count;
  file_size_bytes = some f.file_size_bytes;
  root_layout = some f.root_layout;
  write_mode = some f.write_mode;
}

module _ {F : Type 0} where
  unfoldable pub write_latency : LatencyProfile F → LatencyTable F
  write_latency l = record {
    base_us = some l.base_us;
    lognormal_median_us = some l.lognormal_median_us;
    lognormal_sigma = some l.lognormal_sigma;
    pareto_weight = some l.pareto_weight;
    pareto_xm_us = some l.pareto_xm_us;
    pareto_alpha = some l.pareto_alpha;
    max_us = some l.max_us;
  }

  unfoldable pub write_bandwidth : BandwidthProfile F → BandwidthTable F
  write_bandwidth b = record {
    mib_per_sec = none;
    bytes_per_sec = some b.bytes_per_sec;
    burst_bytes = some b.burst_bytes;
  }

  unfoldable pub write_fault : FaultRule F → FaultTable F
  write_fault r = record { op = some r.op; errno = some (number r.errno); rate = some r.rate }

  unfoldable pub write_large : LargeTierPolicy F → LargeTable F
  unfolding write_latency write_bandwidth write_fault
  write_large l = record {
    latency = some (write_latency l.latency);
    bandwidth = map_some write_bandwidth l.bandwidth;
    faults = some (map write_fault l.faults);
  }

  unfoldable pub write_tier : SizeTier F → TierTable F
  unfolding write_large
  write_tier t = record {
    threshold_bytes = some t.threshold_bytes;
    large = some (write_large t.large);
  }

  unfoldable pub write_policy : OpPolicy F → PolicyTable F
  unfolding write_tier
  write_policy p = record {
    concurrency_cap = some p.concurrency_cap;
    queue_cap = some p.queue_cap;
    latency = some (write_latency p.latency);
    bandwidth = map_some write_bandwidth p.bandwidth;
    faults = some (map write_fault p.faults);
    size_tier = map_some write_tier p.size_tier;
  }

  unfoldable pub write_entry : FsOp × OpPolicy F → FsOp × PolicyTable F
  unfolding write_policy
  write_entry (op, p) = (op, write_policy p)

  unfoldable pub write_config : Config F → ConfigTable F
  unfolding write_entry write_mount write_files
  write_config c = record {
    seed = some c.seed;
    mount = some (write_mount c.mount);
    files = some (write_files c.files);
    ops = some (map write_entry c.ops);
    jsonl_path = c.metrics.jsonl_path;
  }
