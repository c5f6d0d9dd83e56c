-- ===== src/Tests/Fuse.antt =====
-- Examples for the FUSE handlers: reads and listings that go through, and a `getattr` that fails.
use fusecraft_rs.Base.{
  ℕ, ◌+◌, ◌-◌, ◌≤◌, ◌≡◌, refl, ltb, ◌==◌, if◌then◌else◌, Bool, List, [], ◌∷◌, ◌++◌, none, some,
  length, count, min, drop, arith,
}
use fusecraft_rs.Base.Word.{duration_max, from_micros}
use fusecraft_rs.Op as Op
use fusecraft_rs.Op.{is_data}
use fusecraft_rs.Float.Fixed.{Fixed, fixed, fixed_rng, fixed-IsOrdered, fixed-IsUniform}
use fusecraft_rs.Config.{default_mount}
use fusecraft_rs.Sampler.Fault.Laws.{sample_fault_idle}
use fusecraft_rs.Sampler.Latency.Laws.{sample_latency_us-le}
use fusecraft_rs.Limiter.Bandwidth.{reserve}
use fusecraft_rs.Namespace.{Entry, objects_ino}
use fusecraft_rs.Namespace.Listing.{listing, objects_entries}
use fusecraft_rs.Content.{file_len}
use fusecraft_rs.Events.{Event}
use fusecraft_rs.Engine.{
  SimEngine, get_resources, large_tier, select_tier, metadata, data_op, with_requested_len,
}
use fusecraft_rs.Engine.Lifecycle.{sample_key, bandwidth_step}
use fusecraft_rs.Engine.Slot.{fault_of, latency_of, delay_of}
use fusecraft_rs.Fuse.{
  Fuser, FaultFs, bytes, directory, replied, read_context, readable, read, readdir,
}
use fusecraft_rs.Fuse.Laws.{IsFileBytes, Filled, read-bytes, readdir-reply}
use fusecraft_rs.Fuse.Options.{
  from_mount_config, to_fuser_config, is_auto_unmount, owner, from_mount_config-to_fuser_config,
}
use fusecraft_rs.Tests.Samples.{linux, value_list, event_list, flat_latency}
use fusecraft_rs.Tests.Engine.{one_in, write_resources, clock, free_granted}

abbrev fs : FaultFs Fixed (List ℕ) (List Event)
fs = record {
  engine = record {
    seed = 42;
    resources = (Op.read, write_resources) ∷ (Op.readdir, write_resources) ∷ [];
    seq = 0;
    events = [];
    metrics = record { per_op = λ o. none };
  };
  namespace = record { inode_count = 3; file_size_bytes = 10; uid = 1; gid = 2; ctime = 5 };
  content = record { seed = 42; file_length = 10 };
  attr_ttl = 1;
  entry_ttl = 1;
}

-- A conversion that does not keep the number 0.
instance abbrev fuser_numbers : Fuser
fuser_numbers = record { from_i32 = λ n. if n == 0 then 5 else n }

read_found :
    get_resources (read_context fs.content 100 8 4).op fs.engine.resources ≡ some write_resources
unfolding get_resources Op.op_eq Op.discriminant read_context with_requested_len data_op
read_found = refl

read_no_delay : delay_of (read_context fs.content 100 8 4) clock write_resources ≡ 0
unfolding delay_of bandwidth_step select_tier large_tier is_data reserve fixed read_context
    with_requested_len data_op readable file_len
read_no_delay = refl

read_fits :
    from_micros (latency_of fs.engine (read_context fs.content 100 8 4) write_resources)
      + delay_of (read_context fs.content 100 8 4) clock write_resources
    ≤ duration_max
unfolding latency_of select_tier large_tier is_data read_context with_requested_len data_op
read_fits = omega (
  arith,
  read_no_delay,
  sample_latency_us-le flat_latency (sample_key 42 (read_context fs.content 100 8 4) 0),
)

read_no_fault : fault_of fs.engine (read_context fs.content 100 8 4) write_resources ≡ none
unfolding fault_of select_tier large_tier is_data read_context with_requested_len data_op
read_no_fault =
    sample_fault_idle fixed-IsOrdered fixed-IsUniform []
      (sample_key 42 (read_context fs.content 100 8 4) 0) tt

-- A read of four bytes at offset 8 of a file of ten bytes.
read-bytes_example :
    (bs : List ℕ) × (e' : SimEngine Fixed (List ℕ) (List Event)) × (read ℕ fs clock 100 8 4
      ≡ replied (bytes bs) e')
    × IsFileBytes fs.content 100 8 (min (file_len fs.content 100 - 8) 4) bs
read-bytes_example =
    read-bytes ℕ fs clock write_resources 0 one_in free_granted 100 8 4 read_found read_fits
      read_no_fault

-- A directory buffer that holds two entries.
abbrev two_fit : List Entry → Entry → List Entry × Bool
two_fit es e = (es ++ (e ∷ []), ltb 0 (length es))

dir_found :
    get_resources (metadata Op.readdir objects_ino).op fs.engine.resources ≡ some write_resources
unfolding get_resources Op.op_eq Op.discriminant metadata
dir_found = refl

dir_no_delay : delay_of (metadata Op.readdir objects_ino) clock write_resources ≡ 0
unfolding delay_of bandwidth_step select_tier large_tier is_data metadata
dir_no_delay = refl

dir_fits :
    from_micros (latency_of fs.engine (metadata Op.readdir objects_ino) write_resources)
      + delay_of (metadata Op.readdir objects_ino) clock write_resources
    ≤ duration_max
unfolding latency_of select_tier large_tier is_data metadata
dir_fits = omega (
  arith,
  dir_no_delay,
  sample_latency_us-le flat_latency (sample_key 42 (metadata Op.readdir objects_ino) 0),
)

dir_no_fault : fault_of fs.engine (metadata Op.readdir objects_ino) write_resources ≡ none
unfolding fault_of select_tier large_tier is_data metadata
dir_no_fault =
    sample_fault_idle fixed-IsOrdered fixed-IsUniform []
      (sample_key 42 (metadata Op.readdir objects_ino) 0) tt

dir_listing : listing fs.namespace objects_ino ≡ some (objects_entries fs.namespace)
unfolding listing
dir_listing = refl

readdir-reply_example :
    (d' : List Entry) × (e' : SimEngine Fixed (List ℕ) (List Event)) × (readdir
        (List Entry)
        fs
        clock
        two_fit
        objects_ino
        1
        []
      ≡ replied (directory d') e')
    × Filled two_fit (drop 1 (objects_entries fs.namespace)) [] d'
readdir-reply_example =
    readdir-reply (List Entry) fs clock write_resources 0 one_in free_granted two_fit objects_ino 1
      [] (objects_entries fs.namespace) dir_found dir_fits dir_no_fault dir_listing

from_mount_config-to_fuser_config_example :
    (count is_auto_unmount (to_fuser_config (from_mount_config default_mount)).mount_options ≡ 0)
    × ((to_fuser_config (from_mount_config default_mount)).acl ≡ owner)
from_mount_config-to_fuser_config_example = from_mount_config-to_fuser_config default_mount
