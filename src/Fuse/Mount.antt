-- ===== src/Fuse/Mount.antt =====
-- crates/fusecraft-fuser/src/mount.rs: the two entry points. The calls of the fuser crate, `mount2`
-- and `spawn_mount2`, are parameters; an `io::Error` is what `raw_os_error` reads of it.
use Prim.Native.String.{String}
use fusecraft_rs.Base.{ℕ, Option, Result, ok, err}
use fusecraft_rs.Error.{FsError, io}
use fusecraft_rs.Fuse.Options.{FuserMountOptions, FuserConfig, to_fuser_config}

abbrev pub map_io : {A B : Type 0} → (A → B) → Result (Option ℕ) A → Result FsError B
map_io f (ok a) = ok (f a)
map_io f (err e) = err (io e)

pub record MountHandle (Session : Type 0) : Type 0 where
  pub session : Session

module _ {Fs : Type 0} where
  unfoldable pub mount_in_foreground :
      (Fs → String → FuserConfig → Result (Option ℕ) (Unit {0}))
      → Fs
      → String
      → FuserMountOptions
      → Result FsError (Unit {0})
  mount_in_foreground mount2 fs mountpoint opts =
      let config = to_fuser_config opts in map_io (λ u. u) (mount2 fs mountpoint config)

  unfoldable pub spawn_mount :
      {Session : Type 0}
      → (Fs → String → FuserConfig → Result (Option ℕ) Session)
      → Fs
      → String
      → FuserMountOptions
      → Result FsError (MountHandle Session)
  spawn_mount spawn_mount2 fs mountpoint opts =
      let config = to_fuser_config opts in
      map_io (λ s. record { session = s }) (spawn_mount2 fs mountpoint config)
