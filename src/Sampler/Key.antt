-- ===== src/Sampler/Key.antt =====
-- crates/fusecraft-core/src/sampler/key.rs: the key of a sampling event and the seed mixed from it.
pub mod Mixing
use Prim.Native.Nat.{bit_xor}
use fusecraft_rs.Base.{ℕ, suc}
use fusecraft_rs.Base.Word.{rotate_left, wrapping_mul, shr}
use fusecraft_rs.Op.{FsOp, discriminant}
use fusecraft_rs.Float.{Rng}

abbrev pub latency_stream : ℕ
latency_stream = 0xa5a5_a5a5_a5a5_a5a5

abbrev pub fault_stream : ℕ
fault_stream = 0x5a5a_5a5a_5a5a_5a5a

pub record SampleKey : Type 0 where
  pub seed : ℕ
  pub op : FsOp
  pub ino : ℕ
  pub offset : ℕ
  pub len : ℕ
  pub seq : ℕ

-- The exclusive or of all fields and the stream constant.
unfoldable pub combine : SampleKey → ℕ → ℕ
combine k stream =
    bit_xor
      (bit_xor
        (bit_xor
          (bit_xor
            (bit_xor (bit_xor k.seed (rotate_left (discriminant k.op) 11)) (rotate_left k.ino 23))
            (rotate_left k.offset 37))
          (rotate_left k.len 47))
        (rotate_left k.seq 53))
      stream

-- One round `(z ^ (z >> k)).wrapping_mul(c)` of the finalizer.
unfoldable pub mix_round : ℕ → ℕ → ℕ → ℕ
mix_round k c z = wrapping_mul (bit_xor z (shr z k)) c

unfoldable pub mix : SampleKey → ℕ → ℕ
unfolding combine mix_round
mix k stream =
    let z =
      mix_round 27 0x94d0_49bb_1331_11eb (mix_round 30 0xbf58_476d_1ce4_e5b9 (combine k stream)) in
    bit_xor z (shr z 31)

-- `StdRng`: its seed and the number of draws made so far.
pub record StdRng : Type 0 where
  pub state : ℕ
  pub drawn : ℕ

unfoldable pub seed_from_u64 : ℕ → StdRng
seed_from_u64 s = record { state = s; drawn = 0 }

-- `rng.random::<f64>()`
unfoldable pub random : {F : Type 0} ⦃rng : Rng F⦄ → StdRng → F × StdRng
random ⦃rng⦄ r = (rng.draw r.state r.drawn, record r { drawn = suc r.drawn })

unfoldable pub latency_rng : SampleKey → StdRng
unfolding mix seed_from_u64
latency_rng k = seed_from_u64 (mix k latency_stream)

unfoldable pub fault_rng : SampleKey → StdRng
unfolding mix seed_from_u64
fault_rng k = seed_from_u64 (mix k fault_stream)
