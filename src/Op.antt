-- ===== src/Op.antt =====
-- crates/fusecraft-core/src/op.rs: the kinds of filesystem operation.
pub mod Laws
use Prim.Native.String.{String}
use fusecraft_rs.Base.{ℕ, ◌==◌, Bool, List, [], ◌∷◌}

pub data FsOp : Type 0 where
  lookup get_attr open_file read write flush release fsync readdir statfs access : FsOp

-- `FsOp::ALL`, in the order of the source.
unfoldable pub all : List FsOp
all =
    lookup ∷ get_attr ∷ open_file ∷ read ∷ write ∷ flush ∷ release ∷ fsync ∷ readdir ∷ statfs
    ∷ access ∷ []

-- `op as u64`: the discriminant, which counts the variants from 0.
unfoldable pub discriminant : FsOp → ℕ
discriminant lookup = 0
discriminant get_attr = 1
discriminant open_file = 2
discriminant read = 3
discriminant write = 4
discriminant flush = 5
discriminant release = 6
discriminant fsync = 7
discriminant readdir = 8
discriminant statfs = 9
discriminant access = 10

-- `==`, which the source derives.
unfoldable pub op_eq : FsOp → FsOp → Bool
unfolding discriminant
op_eq a b = discriminant a == discriminant b

unfoldable pub as_str : FsOp → String
as_str lookup = "lookup"
as_str get_attr = "getattr"
as_str open_file = "open"
as_str read = "read"
as_str write = "write"
as_str flush = "flush"
as_str release = "release"
as_str fsync = "fsync"
as_str readdir = "readdir"
as_str statfs = "statfs"
as_str access = "access"

-- `matches!(op, FsOp::Read | FsOp::Write)`
unfoldable pub is_data : FsOp → Bool
is_data read = Bool.true
is_data write = Bool.true
is_data _ = Bool.false
