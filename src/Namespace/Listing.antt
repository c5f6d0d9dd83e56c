-- ===== src/Namespace/Listing.antt =====
-- `readdir` against the list of a directory's entries: it pushes the entries behind the offset, in
-- order, until the sink refuses one.
use fusecraft_rs.Base.{
  ℕ, zero, suc, ◌+◌, ◌-◌, ◌≡◌, ◌⊎◌, ◌∙◌, refl, sym, ap, subst, ◌==◌, Bool-cases, inl, inr,
  get_elem?, le→leb, if◌then◌else◌, List, [], ◌∷◌, drop, drop-nil, Option, none, some, Result, ok,
  err, arith,
}
use fusecraft_rs.Error
use fusecraft_rs.Error.{Libc, FsError}
use fusecraft_rs.Namespace.{
  FlatObjectNamespace, Entry, DirSink, dir, file, fuse_root_ino, objects_ino, first_file_ino,
  dot_name, dot_dot_name, index_to_name, root_entries, push_after, push_files, readdir,
}

-- The entries of the files `n`, `n + 1`, … of `left` files.
unfoldable pub file_entries : ℕ → ℕ → List Entry
file_entries zero n = []
file_entries (suc left) n =
    record { ino = first_file_ino + n; offset = n + 3; kind = file; name = index_to_name n }
    ∷ file_entries left (suc n)

abbrev pub objects_entries : FlatObjectNamespace → List Entry
objects_entries ns =
    record { ino = objects_ino; offset = 1; kind = dir; name = dot_name }
    ∷ record { ino = fuse_root_ino; offset = 2; kind = dir; name = dot_dot_name }
    ∷ file_entries ns.inode_count 0

module _ {S : Type 0} (sink : DirSink S) where
  -- Push the entries until the sink refuses one.
  unfoldable pub feed : List Entry → S → S
  feed [] s = s
  feed (e ∷ es) s = let (s', go) = sink.push s e in let rest = feed es s' in if go then rest else s'

  push_files_lem : (left n : ℕ) (s : S) → push_files sink left n s ≡ feed (file_entries left n) s
  unfolding push_files feed file_entries
  push_files_lem zero n s = refl
  push_files_lem (suc left) n s = cc (
      push_files_lem left (suc n)
        (sink.push s (record {
          ino = first_file_ino + n;
          offset = n + 3;
          kind = file;
          name = index_to_name n;
        })).0)

  root_lem :
      (offset : ℕ) (s : S)
      → push_after sink offset root_entries s ≡ feed (drop offset root_entries) s
  unfolding push_after feed
  root_lem zero s = refl
  root_lem (suc zero) s = refl
  root_lem (suc (suc zero)) s = refl
  root_lem (suc (suc (suc o))) s =
      let past = suc (suc (suc o)) in
      rw (
        le→leb 1 past (omega arith),
        le→leb 2 past (omega arith),
        le→leb 3 past (omega arith),
        drop-nil o,
      )

file_entries_cong : {l l' n n' : ℕ} → l ≡ l' → n ≡ n' → file_entries l n ≡ file_entries l' n'
file_entries_cong e f = cc

drop-file_entries : (k left n : ℕ) → drop k (file_entries left n) ≡ file_entries (left - k) (n + k)
unfolding file_entries
drop-file_entries zero left n = file_entries_cong {l = left} {n = n} (omega arith) (omega arith)
drop-file_entries (suc k) zero n =
    file_entries_cong {l = 0} {n = n + suc k} (omega arith) (omega arith)
drop-file_entries (suc k) (suc left) n =
    drop-file_entries k left (suc n)
    ∙ file_entries_cong {l = left - k} {n = suc n + k} (omega arith) (omega arith)

-- The entries of a directory, in the order of their offsets.
unfoldable pub listing : FlatObjectNamespace → ℕ → Option (List Entry)
listing ns ino =
    if ino == fuse_root_ino
    then some root_entries
    else if ino == objects_ino
    then some (objects_entries ns)
    else none

module _ {S : Type 0} (sink : DirSink S) (ns : FlatObjectNamespace) where
  files_lem :
      (k : ℕ) (s : S)
      → push_files sink (ns.inode_count - k) k s
        ≡ feed sink (drop k (file_entries ns.inode_count 0)) s
  files_lem k s =
      push_files_lem sink (ns.inode_count - k) k s
      ∙ ap (λ es. feed sink es s)
          (sym (
            drop-file_entries k ns.inode_count 0
            ∙ file_entries_cong {l = ns.inode_count - k} {n = 0 + k} refl (omega arith)))

  -- What `readdir` does of the objects directory, at each offset.
  objects_lem :
      ⦃libc : Libc⦄
      → (offset : ℕ) (s : S)
      → readdir sink ns objects_ino offset s ≡ ok (feed sink (drop offset (objects_entries ns)) s)
  unfolding readdir feed
  objects_lem zero s = cc (files_lem 0 (sink.push (sink.push s self).0 parent).0)
    where
      self : Entry
      self = record { ino = objects_ino; offset = 1; kind = dir; name = dot_name }

      parent : Entry
      parent = record { ino = fuse_root_ino; offset = 2; kind = dir; name = dot_dot_name }
  objects_lem (suc zero) s = cc (files_lem 0 (sink.push s parent).0)
    where
      parent : Entry
      parent = record { ino = fuse_root_ino; offset = 2; kind = dir; name = dot_dot_name }
  objects_lem (suc (suc k)) s =
      let start : suc (suc k) - 2 ≡ k = omega arith in
      rw (le→leb 1 (suc (suc k)) (omega arith), le→leb 2 (suc (suc k)) (omega arith), start)
        (ap ok (files_lem k s))

-- The entries of a listing from an offset on, pushed until the sink refuses one; without a listing,
-- ENOTDIR.
abbrev pub read_listing :
    {S : Type 0} ⦃libc : Libc⦄ → DirSink S → Option (List Entry) → ℕ → S → Result FsError S
read_listing ⦃libc⦄ sink none offset s = err (Error.errno libc.enotdir)
read_listing sink (some es) offset s = ok (feed sink (drop offset es) s)

-- `readdir` pushes what the listing says the directory holds, from the offset on and in order,
-- until the sink refuses an entry; an inode without a listing gives ENOTDIR.
pub readdir-listing :
    {S : Type 0} ⦃libc : Libc⦄
    → (sink : DirSink S) (ns : FlatObjectNamespace) (ino offset : ℕ) (s : S)
    → readdir sink ns ino offset s ≡ read_listing sink (listing ns ino) offset s
unfolding readdir listing
readdir-listing sink ns ino offset s = elim (Bool-cases (ino == fuse_root_ino)) [
  | inl root ↦ rw root (ap ok (root_lem sink offset s))
  | inr other ↦ elim (Bool-cases (ino == objects_ino)) [
    | inl objects ↦ rw (other, objects) (objects_lem sink ns offset s)
    | inr none_of ↦ rw (other, none_of)
  ]
]

offset-file_entries :
    (left n i : ℕ) (e : Entry) → get_elem? (file_entries left n) i ≡ some e → e.offset ≡ n + 3 + i
unfolding file_entries
offset-file_entries zero n i e h = cc
offset-file_entries (suc left) n zero e h = ground arith
offset-file_entries (suc left) n (suc i) e h = omega (arith, offset-file_entries left (suc n) i e h)

offset-objects :
    (ns : FlatObjectNamespace) (i : ℕ) (e : Entry)
    → get_elem? (objects_entries ns) i ≡ some e
    → e.offset ≡ i + 1
offset-objects ns zero e h = ground arith
offset-objects ns (suc zero) e h = ground arith
offset-objects ns (suc (suc i)) e h = omega (arith, offset-file_entries ns.inode_count 0 i e h)

offset-root : (i : ℕ) (e : Entry) → get_elem? root_entries i ≡ some e → e.offset ≡ i + 1
offset-root zero e h = ground arith
offset-root (suc zero) e h = ground arith
offset-root (suc (suc zero)) e h = ground arith
offset-root (suc (suc (suc i))) e h = cc

listing_cases :
    (ns : FlatObjectNamespace) (ino : ℕ) {es : List Entry}
    → listing ns ino ≡ some es
    → (root_entries ≡ es) ⊎ (objects_entries ns ≡ es)
unfolding listing
listing_cases ns ino h = ground arith

-- The entry at position `i` of a listing has the offset `i + 1`, so a reader that goes on from the
-- offset of the last entry that it took gets the entries behind it.
pub offset-listing :
    (ns : FlatObjectNamespace) (ino i : ℕ) {es : List Entry} (e : Entry)
    → listing ns ino ≡ some es
    → get_elem? es i ≡ some e
    → e.offset ≡ i + 1
offset-listing ns ino i {es} e h k = elim (listing_cases ns ino h) [
  | inl root ↦ offset-root i e (subst (λ xs. get_elem? xs i ≡ some e) (sym root) k)
  | inr objects ↦ offset-objects ns i e (subst (λ xs. get_elem? xs i ≡ some e) (sym objects) k)
]
