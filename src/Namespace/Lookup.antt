-- ===== src/Namespace/Lookup.antt =====
-- `lookup`, `attr` and `readdir` describe one tree.
use fusecraft_rs.Base.{
  ℕ, zero, suc, ◌+◌, ◌≤◌, ◌<◌, ◌≡◌, ◌↔◌, ◌∙◌, refl, sym, ap, true, ◌==◌, Option-cases, inl, inr,
  if◌then◌else◌, List, get_elem?, some, arith,
}
use fusecraft_rs.Config.{FilesConfig}
use fusecraft_rs.Namespace.{
  FlatObjectNamespace, Entry, file, fuse_root_ino, objects_ino, first_file_ino, max_files, new,
  index_to_name, parse_name, lookup, attr, is_file, dir_attr, file_attr, file_ino,
}
use fusecraft_rs.Namespace.Names.{parse_name-index_to_name, parse_name_sound}
use fusecraft_rs.Namespace.Listing.{file_entries, objects_entries}

-- The entry of file `n`.
abbrev pub file_entry : ℕ → Entry
file_entry n = record {
  ino = first_file_ino + n;
  offset = n + 3;
  kind = file;
  name = index_to_name n;
}

get_elem?-file_entries :
    (left n i : ℕ) → i < left → get_elem? (file_entries left n) i ≡ some (file_entry (n + i))
unfolding file_entries
get_elem?-file_entries zero n i h = absurd (omega arith)
get_elem?-file_entries (suc left) n zero h = ap some (ap file_entry (omega arith))
get_elem?-file_entries (suc left) n (suc i) h =
    get_elem?-file_entries left (suc n) i (omega arith) ∙ ap some (ap file_entry (omega arith))

get_elem?-file_entries_lt :
    (left n i : ℕ) (e : Entry) → get_elem? (file_entries left n) i ≡ some e → i < left
unfolding file_entries
get_elem?-file_entries_lt zero n i e h = cc
get_elem?-file_entries_lt (suc left) n zero e h = omega arith
get_elem?-file_entries_lt (suc left) n (suc i) e h =
    omega (arith, get_elem?-file_entries_lt left (suc n) i e h)

some_eq : {x y : Entry} → some x ≡ some y → x ≡ y
some_eq h = cc h

-- The listing of the objects directory has, behind its two dots, an entry with this name and inode.
abbrev pub IsListed : FlatObjectNamespace → List ℕ → ℕ → Type 0
IsListed ns name ino =
    (k : ℕ) × (e : Entry) × (get_elem? (objects_entries ns) (suc (suc k)) ≡ some e)
    × (e.name ≡ name)
    × (e.ino ≡ ino)

lookup_objects :
    (ns : FlatObjectNamespace) (name : List ℕ)
    → lookup ns objects_ino name ≡ file_ino (parse_name ns name)
unfolding lookup
lookup_objects ns name = refl

lookup→IsListed :
    (ns : FlatObjectNamespace) (name : List ℕ) (ino : ℕ)
    → lookup ns objects_ino name ≡ some ino
    → IsListed ns name ino
lookup→IsListed ns name ino h = elim (Option-cases (parse_name ns name)) [
  | inl e ↦ cc (lookup_objects ns name, ap file_ino e)
  | inr (n, e) ↦
      let (low, same) = parse_name_sound ns name n e in
      (
        n,
        file_entry n,
        get_elem?-file_entries ns.inode_count 0 n low ∙ ap some (ap file_entry (omega arith)),
        sym same,
        ground (arith, lookup_objects ns name, e),
      )
]

IsListed→lookup :
    (ns : FlatObjectNamespace) (name : List ℕ) (ino : ℕ)
    → ns.inode_count ≤ max_files
    → IsListed ns name ino
    → lookup ns objects_ino name ≡ some ino
IsListed→lookup ns name ino most (k, e, at, same, num) =
    let low = get_elem?-file_entries_lt ns.inode_count 0 k e at in
    let shown : file_entry (0 + k) ≡ e =
      some_eq (sym (get_elem?-file_entries ns.inode_count 0 k low) ∙ at) in
    ground (
      arith,
      lookup_objects ns name,
      parse_name-index_to_name ns k most low,
      ap (λ (x : Entry). x.name) shown,
      ap (λ (x : Entry). x.ino) shown,
      ap (parse_name ns) same,
    )

-- `lookup` in the objects directory finds a name exactly when the listing of the directory has it
-- behind its two dots, with the inode that is listed, provided that there are at most a million
-- files.
pub lookup-listing :
    (ns : FlatObjectNamespace) (name : List ℕ) (ino : ℕ)
    → ns.inode_count ≤ max_files
    → (lookup ns objects_ino name ≡ some ino) ↔ IsListed ns name ino
lookup-listing ns name ino most = (lookup→IsListed ns name ino, IsListed→lookup ns name ino most)

-- A number of files that `new` accepts fits six digits.
pub new-inode_count :
    (c : FilesConfig) (uid gid now : ℕ) → (new c uid gid now).inode_count < max_files
unfolding new
new-inode_count c uid gid now = omega arith

ino_to_index_file :
    (ns : FlatObjectNamespace) (n : ℕ) → n < ns.inode_count → is_file ns (first_file_ino + n) ≡ true
unfolding is_file
ino_to_index_file ns n h = ground arith

-- Whatever `lookup` finds has attributes under its own inode: those of a directory if it was found
-- in the root, and those of a file if it was found in the objects directory.
pub lookup-attr :
    (ns : FlatObjectNamespace) (parent : ℕ) (name : List ℕ) (ino : ℕ)
    → lookup ns parent name ≡ some ino
    → attr ns ino ≡ some (if parent == fuse_root_ino then dir_attr ns ino else file_attr ns ino)
unfolding lookup attr
lookup-attr ns parent name ino h = elim (Option-cases (parse_name ns name)) [
  | inl e ↦ ground arith
  | inr (n, e) ↦ ground (arith, (parse_name_sound ns name n e).0, ino_to_index_file ns n)
]
