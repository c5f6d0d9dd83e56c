-- ===== src/Fuse/Options.antt =====
-- crates/fusecraft-fuser/src/opts.rs: the mount options that the fuser crate is given.
use Prim.Native.String.{String}
use fusecraft_rs.Base.{
  ◌≡◌, refl, Bool, true, false, ◌&&◌, if◌then◌else◌, List, [], ◌∷◌, ◌++◌, count, arith,
}
use fusecraft_rs.Config.{MountConfig}

pub record FuserMountOptions : Type 0 where
  pub fs_name : String
  pub subtype : String
  pub auto_unmount : Bool
  pub default_permissions : Bool
  pub read_only : Bool
  pub direct_io : Bool
  pub allow_other : Bool

pub data MountOption : Type 0 where
  fs_name_option subtype_option custom : String → MountOption
  auto_unmount_option default_permissions_option ro rw : MountOption

pub data SessionAcl : Type 0 where
  everyone owner : SessionAcl

pub record FuserConfig : Type 0 where
  pub mount_options : List MountOption
  pub acl : SessionAcl

unfoldable pub from_mount_config : MountConfig → FuserMountOptions
from_mount_config cfg = record {
  fs_name = cfg.fs_name;
  subtype = cfg.subtype;
  auto_unmount = cfg.auto_unmount;
  default_permissions = cfg.default_permissions;
  read_only = cfg.read_only;
  direct_io = cfg.direct_io;
  allow_other = false;
}

-- A push under an `if` without `else`.
abbrev pub push_if : Bool → MountOption → List MountOption
push_if b o = if b then o ∷ [] else []

unfoldable pub to_fuser_config : FuserMountOptions → FuserConfig
to_fuser_config o = record {
  mount_options =
      fs_name_option o.fs_name ∷ subtype_option o.subtype ∷ []
      ++ push_if (o.auto_unmount && o.allow_other) auto_unmount_option
      ++ push_if o.default_permissions default_permissions_option
      ++ ((if o.read_only then ro else rw) ∷ [])
      ++ push_if o.direct_io (custom "direct_io");
  acl = if o.allow_other then everyone else owner;
}

-- Which options ask for the automatic unmount.
abbrev pub is_auto_unmount : MountOption → Bool
is_auto_unmount auto_unmount_option = true
is_auto_unmount _ = false

-- Mount options that come from a configuration never ask for the automatic unmount, whatever its
-- `auto_unmount` says, and restrict the mount to its owner.
pub from_mount_config-to_fuser_config :
    (cfg : MountConfig)
    → (count is_auto_unmount (to_fuser_config (from_mount_config cfg)).mount_options ≡ 0)
      × ((to_fuser_config (from_mount_config cfg)).acl ≡ owner)
unfolding to_fuser_config from_mount_config
from_mount_config-to_fuser_config cfg = (ground arith, refl)
