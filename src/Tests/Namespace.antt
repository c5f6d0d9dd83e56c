-- ===== src/Tests/Namespace.antt =====
-- Examples for the namespace, the content and the metrics.
use fusecraft_rs.Base.{
  ℕ, ◌≡◌, ◌↔◌, refl, true, false, List, [], ◌∷◌, ◌++◌, some, length, ltb, arith,
}
use fusecraft_rs.Op as Op
use fusecraft_rs.Namespace.{
  FlatObjectNamespace, DirSink, Entry, objects_ino, index_to_name, parse_name, lookup, readdir,
}
use fusecraft_rs.Namespace.Names.{parse_name-index_to_name}
use fusecraft_rs.Namespace.Listing.{listing, read_listing, readdir-listing}
use fusecraft_rs.Namespace.Lookup.{IsListed, lookup-listing}
use fusecraft_rs.Content.{DeterministicContent, read_at}
use fusecraft_rs.Content.Laws.{read_at-append}
use fusecraft_rs.Metrics.Laws.{Call}
use fusecraft_rs.Op.{all}
use fusecraft_rs.Tests.Samples.{linux, value_list}

abbrev three_files : FlatObjectNamespace
three_files = record { inode_count = 3; file_size_bytes = 10; uid = 1; gid = 2; ctime = 5 }

-- The text "000002".
abbrev two_name : List ℕ
two_name = 48 ∷ 48 ∷ 48 ∷ 48 ∷ 48 ∷ 50 ∷ []

parse_name-index_to_name_example : parse_name three_files (index_to_name 2) ≡ some 2
parse_name-index_to_name_example =
    parse_name-index_to_name three_files 2 (omega arith) (omega arith)

two_name_parses : parse_name three_files two_name ≡ some 2
unfolding parse_name
two_name_parses = refl

-- A buffer of two entries.
abbrev small_buffer : DirSink (List Entry)
small_buffer = record { push = λ s e. (s ++ (e ∷ []), ltb (length s) 1) }

lookup-listing_example :
    (lookup three_files objects_ino two_name ≡ some 102) ↔ IsListed three_files two_name 102
lookup-listing_example = lookup-listing three_files two_name 102 (omega arith)

readdir-listing_example :
    readdir small_buffer three_files objects_ino 1 []
    ≡ read_listing small_buffer (listing three_files objects_ino) 1 []
readdir-listing_example = readdir-listing small_buffer three_files objects_ino 1 []

abbrev content : DeterministicContent
content = record { seed = 42; file_length = 10 }

read_at-append_example :
    read_at content 100 4 (0 ∷ 0 ∷ 0 ∷ [])
    ≡ read_at content 100 4 (0 ∷ []) ++ read_at content 100 5 (7 ∷ 7 ∷ [])
read_at-append_example = read_at-append content 100 4 (0 ∷ []) (0 ∷ 0 ∷ []) (7 ∷ 7 ∷ []) refl

abbrev two_reads : List Call
two_reads =
    record { op = Op.read; duration_us = 0; is_error = true }
    ∷ record { op = Op.read; duration_us = 90; is_error = false }
    ∷ []
