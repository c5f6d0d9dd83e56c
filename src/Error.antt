-- ===== src/Error.antt =====
-- crates/fusecraft-core/src/error.rs, the errno numbers of the libc crate that the code names, and
-- the configuration messages of crates/fusecraft-core/src/config.rs.
-- An `i32` errno is held as its 32-bit pattern. A message is the format string that builds it, with
-- the config path, the rule index and the operation kinds that it quotes; quoted values are dropped.
use Prim.Native.String.{String}
use fusecraft_rs.Base.{ℕ, Option, none, some}
use fusecraft_rs.Op.{FsOp}

-- The numbers that the libc crate defines for the target platform.
pub record Libc : Type 0 where
  pub eio : ℕ
  pub enoent : ℕ
  pub estale : ℕ
  pub enospc : ℕ
  pub eagain : ℕ
  pub eintr : ℕ
  pub einval : ℕ
  pub enotdir : ℕ

-- The `prefix` strings: `ops.<op>`, and the suffixes that are appended to it.
pub data Prefix : Type 0 where
  ops : FsOp → Prefix
  latency bandwidth faults large : Prefix → Prefix

pub data Message : Type 0 where
  unknown_errno : String → Message
  inode_count_zero file_size_zero : Message
  concurrency_cap_zero max_below_base weight_out_of_range alpha_not_positive : Prefix → Message
  median_negative sigma_negative bandwidth_not_finite threshold_zero : Prefix → Message
  latency_not_finite : Prefix → String → Message
  fault_op_mismatch : Prefix → ℕ → FsOp → FsOp → Message
  fault_rate_out_of_range : Prefix → ℕ → Message
  tier_on_metadata : Prefix → FsOp → Message

-- An `io::Error` is what `raw_os_error` reads of it.
pub data FsError : Type 0 where
  errno : ℕ → FsError
  config : Message → FsError
  io : Option ℕ → FsError

unfoldable pub as_errno : ⦃libc : Libc⦄ → FsError → ℕ
as_errno ⦃libc⦄ (errno e) = e
as_errno ⦃libc⦄ (io (some e)) = e
as_errno ⦃libc⦄ (io none) = libc.eio
as_errno ⦃libc⦄ (config _) = libc.einval
