-- ===== src/Namespace.antt =====
-- crates/fusecraft-core/src/namespace: the flat tree of synthetic files.
-- A name (`OsStr`) is its list of bytes. A `DirSink` is a state with a push that says whether to go
-- on. The process ids and the creation time that `new` reads are arguments.
pub mod Names
pub mod Listing
pub mod Lookup
use fusecraft_rs.Base.{
  ℕ, zero, suc, ◌+◌, ◌-◌, ◌*◌, ◌/◌, ◌%◌, ◌<◌, ◌≡◌, min, Bool, true, false, not, ◌==◌, ◌&&◌, ◌||◌,
  ltb, leb, if◌then◌else◌, List, [], ◌∷◌, ◌++◌, length, replicate, Option, none, some, Result, ok,
  err,
}
use fusecraft_rs.Error
use fusecraft_rs.Error.{Libc, FsError}
use fusecraft_rs.Config.{FilesConfig}

pub data FileKind : Type 0 where
  dir file : FileKind

pub record FileAttrSpec : Type 0 where
  pub ino : ℕ
  pub size : ℕ
  pub kind : FileKind
  pub mode : ℕ
  pub nlink : ℕ
  pub uid : ℕ
  pub gid : ℕ
  pub mtime : ℕ

-- One entry as it is pushed: inode, offset, kind, name.
pub record Entry : Type 0 where
  pub ino : ℕ
  pub offset : ℕ
  pub kind : FileKind
  pub name : List ℕ

abbrev pub fuse_root_ino : ℕ
fuse_root_ino = 1

abbrev pub objects_ino : ℕ
objects_ino = 2

abbrev pub first_file_ino : ℕ
first_file_ino = 100

abbrev pub max_files : ℕ
max_files = 1000000

-- "objects", "." and ".." in bytes.
abbrev pub objects_name : List ℕ
objects_name = b'o' ∷ b'b' ∷ b'j' ∷ b'e' ∷ b'c' ∷ b't' ∷ b's' ∷ []

abbrev pub dot_name : List ℕ
dot_name = b'.' ∷ []

abbrev pub dot_dot_name : List ℕ
dot_dot_name = b'.' ∷ b'.' ∷ []

-- Equality of names.
unfoldable pub name_eq : List ℕ → List ℕ → Bool
name_eq [] [] = true
name_eq (a ∷ as') (b ∷ bs) = a == b && name_eq as' bs
name_eq _ _ = false

pub record FlatObjectNamespace : Type 0 where
  pub inode_count : ℕ
  pub file_size_bytes : ℕ
  pub uid : ℕ
  pub gid : ℕ
  pub ctime : ℕ

unfoldable pub new : FilesConfig → ℕ → ℕ → ℕ → FlatObjectNamespace
new config uid gid now = record {
  inode_count = min config.inode_count (max_files - 1);
  file_size_bytes = config.file_size_bytes;
  uid = uid;
  gid = gid;
  ctime = now;
}

-- The decimal digits of `n` in front of `rest`; 20 digits are enough for a `u64`.
unfoldable pub decimal : ℕ → ℕ → List ℕ → List ℕ
decimal zero n rest = rest
decimal (suc fuel) n rest =
    let more = decimal fuel (n / 10) ((b'0' + n % 10) ∷ rest) in
    if ltb n 10 then (b'0' + n) ∷ rest else more

unfoldable pub pad : ℕ → List ℕ → List ℕ
pad width s = replicate (width - length s) b'0' ++ s

-- `format!("{n:06}")`
unfoldable pub index_to_name : ℕ → List ℕ
unfolding decimal pad
index_to_name n = pad 6 (decimal 20 n [])

abbrev pub is_ascii_digit : ℕ → Bool
is_ascii_digit b = leb b'0' b && leb b b'9'

unfoldable pub all_digits : List ℕ → Bool
all_digits [] = true
all_digits (b ∷ bs) = is_ascii_digit b && all_digits bs

-- `str::parse::<u64>` on a non-empty text of digits: `None` on overflow.
unfoldable pub parse_u64 : List ℕ → ℕ → Option ℕ
parse_u64 [] n = some n
parse_u64 (b ∷ bs) n =
    let m = n * 10 + (b - b'0') in if ltb m 18446744073709551616 then parse_u64 bs m else none

abbrev pub then_some : {A : Type 0} → Bool → A → Option A
then_some b a = if b then some a else none

-- `u64::checked_sub`
abbrev pub checked_sub : ℕ → ℕ → Option ℕ
checked_sub a b = if ltb a b then none else some (a - b)

unfoldable pub below_count : FlatObjectNamespace → Option ℕ → Option ℕ
below_count ns none = none
below_count ns (some n) = then_some (ltb n ns.inode_count) n

unfoldable pub ino_to_index : FlatObjectNamespace → ℕ → Option ℕ
unfolding below_count
ino_to_index ns ino = below_count ns (checked_sub ino first_file_ino)

-- `name.to_str()` fails on a name that is not UTF-8. Six ASCII digits are, so the test for them
-- already gives the `None` of that failure.
unfoldable pub parse_name : FlatObjectNamespace → List ℕ → Option ℕ
unfolding below_count parse_u64 all_digits
parse_name ns name =
    if not (length name == 6) || not (all_digits name)
    then none
    else below_count ns (parse_u64 name 0)

unfoldable pub dir_attr : FlatObjectNamespace → ℕ → FileAttrSpec
dir_attr ns ino = record {
  ino = ino;
  size = 0;
  kind = dir;
  mode = 0o755;
  nlink = 2;
  uid = ns.uid;
  gid = ns.gid;
  mtime = ns.ctime;
}

unfoldable pub file_attr : FlatObjectNamespace → ℕ → FileAttrSpec
file_attr ns ino = record {
  ino = ino;
  size = ns.file_size_bytes;
  kind = file;
  mode = 0o644;
  nlink = 1;
  uid = ns.uid;
  gid = ns.gid;
  mtime = ns.ctime;
}

abbrev pub file_ino : Option ℕ → Option ℕ
file_ino none = none
file_ino (some n) = some (first_file_ino + n)

unfoldable pub lookup : FlatObjectNamespace → ℕ → List ℕ → Option ℕ
unfolding parse_name name_eq
lookup ns parent name =
    if parent == fuse_root_ino
    then then_some (name_eq name objects_name) objects_ino
    else if parent == objects_ino
    then file_ino (parse_name ns name)
    else none

unfoldable pub is_file : FlatObjectNamespace → ℕ → Bool
unfolding ino_to_index
is_file ns ino = elim (ino_to_index ns ino) [ none ↦ false | some _ ↦ true ]

unfoldable pub attr : FlatObjectNamespace → ℕ → Option FileAttrSpec
unfolding dir_attr file_attr is_file
attr ns ino =
    if ino == fuse_root_ino
    then some (dir_attr ns fuse_root_ino)
    else if ino == objects_ino
    then some (dir_attr ns objects_ino)
    else if is_file ns ino
    then some (file_attr ns ino)
    else none

-- `DirSink`: the state of the sink after a push, and whether to go on.
pub record DirSink (S : Type 0) : Type 0 where
  pub push : S → Entry → S × Bool

-- The array in `readdir` of the root.
abbrev pub root_entries : List Entry
root_entries =
    record { ino = fuse_root_ino; offset = 1; kind = dir; name = dot_name }
    ∷ record { ino = fuse_root_ino; offset = 2; kind = dir; name = dot_dot_name }
    ∷ record { ino = objects_ino; offset = 3; kind = dir; name = objects_name }
    ∷ []

module _ {S : Type 0} (sink : DirSink S) where
  -- The loop over the three entries of the root.
  unfoldable pub push_after : ℕ → List Entry → S → S
  push_after offset [] s = s
  push_after offset (e ∷ es) s =
      let next = push_after offset es s in
      let (s', go) = sink.push s e in
      let pushed = push_after offset es s' in
      if leb e.offset offset then next else if go then pushed else s'

  -- `for n in start..inode_count`, with `left` rounds to go.
  unfoldable pub push_files : ℕ → ℕ → S → S
  push_files zero n s = s
  push_files (suc left) n s =
      let (s', go) = sink.push s (record {
        ino = first_file_ino + n;
        offset = n + 3;
        kind = file;
        name = index_to_name n;
      }) in
      let rest = push_files left (suc n) s' in if go then rest else s'

  -- `if 1 > offset && !sink.push(…) { return Ok(()) }`, with what follows as an argument.
  abbrev pub push_unless : Bool → Entry → S → (S → S) → S
  push_unless skip e s continue =
      let (s', go) = sink.push s e in if skip then continue s else if go then continue s' else s'

  unfoldable pub readdir : ⦃libc : Libc⦄ → FlatObjectNamespace → ℕ → ℕ → S → Result FsError S
  unfolding push_after push_files
  readdir ⦃libc⦄ ns ino offset s =
      if ino == fuse_root_ino
      then ok (push_after offset root_entries s)
      else if ino == objects_ino
      then ok (
          push_unless (leb 1 offset)
            (record { ino = objects_ino; offset = 1; kind = dir; name = dot_name }) s
            λ s1.
              push_unless (leb 2 offset)
                (record { ino = fuse_root_ino; offset = 2; kind = dir; name = dot_dot_name }) s1
                λ s2. push_files (ns.inode_count - (offset - 2)) (offset - 2) s2)
      else err (Error.errno libc.enotdir)
