-- ===== src/Fuse.antt =====
-- crates/fusecraft-fuser/src/lib.rs: the handlers of `FaultFs` over the flat namespace and the
-- deterministic content, with the conversions of reply_helpers.rs. A reply is what the handler sends;
-- the buffer behind `ReplyDirectory` is the fuser crate's, a state with an `add` that says whether
-- the entry did not fit. Handles, flags and lock owners, which no handler reads, are left out.
pub mod Laws
pub mod Options
pub mod Mount
use fusecraft_rs.Base.{
  ℕ, ◌+◌, ◌-◌, ◌/◌, ◌%◌, ◌^◌, ◌==◌, min, leb, Bool, if◌then◌else◌, List, [], ◌∷◌, ◌++◌, length,
  replicate, Option, none, some, Result, ok, err, ◌>>=◌, ok_or, map_ok,
}
use fusecraft_rs.Op as Op
use fusecraft_rs.Error.{Libc, FsError, errno, as_errno}
use fusecraft_rs.Float.{Float, Rng}
use fusecraft_rs.Namespace as Namespace
use fusecraft_rs.Namespace.{FlatObjectNamespace, FileAttrSpec, FileKind, Entry, DirSink}
use fusecraft_rs.Content.{DeterministicContent, file_len, read_at, write_at}
use fusecraft_rs.Events.{EventSink}
use fusecraft_rs.Metrics.{Histogram}
use fusecraft_rs.Engine.{
  OpContext, SimEngine, Clock, Run, returned, panicked, blocked, metadata, data_op,
  with_requested_len,
}
use fusecraft_rs.Engine.Lifecycle.{run_op}

pub record FaultFs (F H S : Type 0) : Type 0 where
  pub engine : SimEngine F H S
  pub namespace : FlatObjectNamespace
  pub content : DeterministicContent
  pub attr_ttl : ℕ
  pub entry_ttl : ℕ

abbrev pub default_ttl : ℕ
default_ttl = 1000000000

unfoldable pub new_fs :
    {F H S : Type 0} → SimEngine F H S → FlatObjectNamespace → DeterministicContent → FaultFs F H S
new_fs engine namespace content = record {
  engine = engine;
  namespace = namespace;
  content = content;
  attr_ttl = default_ttl;
  entry_ttl = default_ttl;
}

unfoldable pub with_ttls : {F H S : Type 0} → FaultFs F H S → ℕ → ℕ → FaultFs F H S
with_ttls fs attr_ttl entry_ttl = record fs { attr_ttl = attr_ttl; entry_ttl = entry_ttl }

pub record FileAttr : Type 0 where
  pub ino : ℕ
  pub size : ℕ
  pub blocks : ℕ
  pub atime : ℕ
  pub mtime : ℕ
  pub ctime : ℕ
  pub crtime : ℕ
  pub kind : FileKind
  pub perm : ℕ
  pub nlink : ℕ
  pub uid : ℕ
  pub gid : ℕ
  pub rdev : ℕ
  pub blksize : ℕ
  pub flags : ℕ

-- `as u16` and `as u32`
unfoldable pub attr_from_spec : FileAttrSpec → FileAttr
attr_from_spec spec = record {
  ino = spec.ino;
  size = spec.size;
  blocks = (spec.size + 511) / 512;
  atime = spec.mtime;
  mtime = spec.mtime;
  ctime = spec.mtime;
  crtime = 0;
  kind = spec.kind;
  perm = spec.mode % 2 ^ 16;
  nlink = spec.nlink;
  uid = spec.uid;
  gid = spec.gid;
  rdev = 0;
  blksize = 4096;
  flags = 0;
}

-- What a handler sends. `D` is the state of the directory buffer.
pub data Reply (D : Type 0) : Type 0 where
  entry : (ttl : ℕ) → FileAttr → (generation : ℕ) → Reply D
  attr : (ttl : ℕ) → FileAttr → Reply D
  opened : (handle : ℕ) → Reply D
  bytes : List ℕ → Reply D
  written : ℕ → Reply D
  done : Reply D
  directory : D → Reply D
  statistics : (blocks bfree bavail files ffree bsize namelen frsize : ℕ) → Reply D
  failed : ℕ → Reply D

pub data Handled (F H S D : Type 0) : Type 0 where
  replied : Reply D → SimEngine F H S → Handled F H S D
  crashed : SimEngine F H S → Handled F H S D
  queued : SimEngine F H S → Handled F H S D

-- The fuser crate's conversion of an error number.
pub record Fuser : Type 0 where
  pub from_i32 : ℕ → ℕ

unfoldable pub errno_to_fuser : ⦃fuser : Fuser⦄ → ℕ → ℕ
errno_to_fuser ⦃fuser⦄ n = fuser.from_i32 n

-- The `match` on what `run_op` returns.
unfoldable pub answer :
    {F H S D T : Type 0} ⦃libc : Libc⦄ ⦃fuser : Fuser⦄
    → (T → Reply D)
    → Run F H S (Unit {0}) T
    → Handled F H S D
unfolding errno_to_fuser
answer reply (returned (ok v) e w) = replied (reply v) e
answer reply (returned (err x) e w) = replied (failed (errno_to_fuser (as_errno x))) e
answer reply (panicked e w) = crashed e
answer reply (blocked e) = queued e

-- A closure that changes nothing.
abbrev pub pure : {T : Type 0} → Result FsError T → Unit {0} → Result FsError T × Unit {0}
pure r w = (r, w)

unfoldable pub lookup_body :
    ⦃libc : Libc⦄ → FlatObjectNamespace → ℕ → List ℕ → Result FsError FileAttrSpec
lookup_body ⦃libc⦄ ns parent name =
    ok_or (Namespace.lookup ns parent name) (errno libc.enoent) >>= λ ino.
    ok_or (Namespace.attr ns ino) (errno libc.enoent)

-- The bytes that a read of `requested` bytes at `offset` can give.
unfoldable pub readable : ℕ → ℕ → ℕ → ℕ
readable length_ offset requested =
    if leb length_ offset then 0 else min (length_ - offset) requested

unfoldable pub read_context : DeterministicContent → ℕ → ℕ → ℕ → OpContext
read_context content ino offset size =
    with_requested_len (data_op Op.read ino offset (readable (file_len content ino) offset size))
      size

unfoldable pub read_body : DeterministicContent → ℕ → ℕ → ℕ → List ℕ
read_body content ino offset n = if n == 0 then [] else read_at content ino offset (replicate n 0)

-- The sink of `readdir`, which takes every entry.
abbrev pub collector : DirSink (List Entry)
collector = record { push = λ entries e. (entries ++ (e ∷ []), Bool.true) }

-- The loop over the collected entries, until the buffer is full.
unfoldable pub add_entries : {D : Type 0} → (D → Entry → D × Bool) → List Entry → D → D
add_entries add [] d = d
add_entries add (e ∷ es) d =
    let (d', full) = add d e in let rest = add_entries add es d' in if full then d' else rest

module _ {F H S : Type 0} (D : Type 0) ⦃fl : Float F⦄ ⦃rng : Rng F⦄ ⦃libc : Libc⦄ ⦃fuser : Fuser⦄
    ⦃histogram : Histogram H⦄ ⦃sink : EventSink S⦄ (fs : FaultFs F H S) (t : Clock) where
  unfoldable pub lookup : ℕ → List ℕ → Handled F H S D
  unfolding answer lookup_body
  lookup parent name =
      answer (λ spec. entry fs.entry_ttl (attr_from_spec spec) 0)
        (run_op (metadata Op.lookup parent) t (pure (lookup_body fs.namespace parent name))
          fs.engine tt)

  unfoldable pub getattr : ℕ → Handled F H S D
  unfolding answer
  getattr ino =
      answer (λ spec. attr fs.attr_ttl (attr_from_spec spec))
        (run_op (metadata Op.get_attr ino) t
          (pure (ok_or (Namespace.attr fs.namespace ino) (errno libc.enoent))) fs.engine tt)

  -- The handlers whose closure is `|| Ok(())`.
  unfoldable pub unit_op : Op.FsOp → Reply D → ℕ → Handled F H S D
  unfolding answer
  unit_op op reply ino =
      answer (λ (v : Unit {0}). reply) (run_op (metadata op ino) t (pure (ok tt)) fs.engine tt)

  unfoldable pub open_ : ℕ → Handled F H S D
  unfolding unit_op
  open_ ino = unit_op Op.open_file (opened 0) ino

  unfoldable pub flush : ℕ → Handled F H S D
  unfolding unit_op
  flush ino = unit_op Op.flush done ino

  unfoldable pub release_file : ℕ → Handled F H S D
  unfolding unit_op
  release_file ino = unit_op Op.release done ino

  unfoldable pub fsync : ℕ → Handled F H S D
  unfolding unit_op
  fsync ino = unit_op Op.fsync done ino

  unfoldable pub statfs : ℕ → Handled F H S D
  unfolding unit_op
  statfs ino =
      unit_op Op.statfs (statistics 1000000 1000000 1000000 1000000 1000000 4096 255 4096) ino

  unfoldable pub access : ℕ → Handled F H S D
  unfolding answer
  access ino =
      answer (λ (v : Unit {0}). done)
        (run_op (metadata Op.access ino) t
          (pure (ok_or (Namespace.attr fs.namespace ino) (errno libc.enoent) >>= λ _. ok tt))
          fs.engine tt)

  unfoldable pub read : ℕ → ℕ → ℕ → Handled F H S D
  unfolding answer
  read ino offset size = answer bytes (
      run_op (read_context fs.content ino offset size) t
        (pure
          (ok (read_body fs.content ino offset (readable (file_len fs.content ino) offset size))))
        fs.engine tt)

  unfoldable pub write : ℕ → ℕ → List ℕ → Handled F H S D
  unfolding answer
  write ino offset data_ = answer written (
      run_op (data_op Op.write ino offset (length data_)) t
        (pure (map_ok (λ n. n % 2 ^ 32) (write_at fs.content ino offset data_))) fs.engine tt)

  unfoldable pub readdir : (D → Entry → D × Bool) → ℕ → ℕ → D → Handled F H S D
  unfolding answer add_entries
  readdir add ino offset d =
      answer (λ entries. directory (add_entries add entries d))
        (run_op (metadata Op.readdir ino) t
          (pure (Namespace.readdir collector fs.namespace ino offset [])) fs.engine tt)
