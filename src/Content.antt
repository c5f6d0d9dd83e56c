-- ===== src/Content.antt =====
-- File contents: content/mod.rs and content/deterministic.rs of crates/fusecraft-core/src.
-- A byte is a number below 256, and a buffer is the list of its bytes.
pub mod Laws
use fusecraft_rs.Base.{ℕ, zero, suc, ◌+◌, ◌%◌, List, [], ◌∷◌, Result, ok, length}
use fusecraft_rs.Base.Word.{wrapping_add, wrapping_mul, rotate_left, shr}
use fusecraft_rs.Error.{FsError}
use Prim.Native.Nat.{bit_xor}

-- `synth_byte(ino, offset, seed)`: the words mixed, then a finalizer, and `as u8`.
abbrev pub mixed_words : ℕ → ℕ → ℕ → ℕ
mixed_words ino offset seed = bit_xor (bit_xor seed (rotate_left ino 17)) (rotate_left offset 31)

unfoldable pub finalize : ℕ → ℕ
finalize x =
    let x1 = bit_xor x (shr x 33) in
    let x2 = wrapping_mul x1 0xff51afd7ed558ccd in
    let x3 = bit_xor x2 (shr x2 33) in
    let x4 = wrapping_mul x3 0xc4ceb9fe1a85ec53 in bit_xor x4 (shr x4 33)

unfoldable pub synth_byte : ℕ → ℕ → ℕ → ℕ
synth_byte ino offset seed = finalize (mixed_words ino offset seed) % 256

pub record DeterministicContent : Type 0 where
  pub seed : ℕ
  pub file_length : ℕ

unfoldable pub file_len : DeterministicContent → ℕ → ℕ
file_len c ino = c.file_length

-- `read_at` overwrites every byte of the buffer: the loop from position `i` on.
unfoldable pub fill : DeterministicContent → ℕ → ℕ → ℕ → List ℕ → List ℕ
fill c ino offset i [] = []
fill c ino offset i (b ∷ dst) =
    synth_byte ino (wrapping_add offset i) c.seed ∷ fill c ino offset (suc i) dst

unfoldable pub read_at : DeterministicContent → ℕ → ℕ → List ℕ → List ℕ
read_at c ino offset dst = fill c ino offset 0 dst

-- Writes are discarded, and acknowledged in full.
unfoldable pub write_at : DeterministicContent → ℕ → ℕ → List ℕ → Result FsError ℕ
write_at c ino offset data_ = ok (length data_)
