-- ===== src/Content/Laws.antt =====
-- What a reader of the synthetic content can rely on.
use fusecraft_rs.Base.{
  ℕ, zero, suc, ◌+◌, ◌<◌, ◌≡◌, refl, ap, ◌∙◌, List, [], ◌∷◌, ◌++◌, length, get_elem?, some, arith,
}
use fusecraft_rs.Base.Word.{wrapping_add}
use fusecraft_rs.Content.{DeterministicContent, synth_byte, fill, read_at}

get_elem?-fill :
    (c : DeterministicContent) (ino offset i : ℕ) (dst : List ℕ) (k : ℕ)
    → k < length dst
    → get_elem? (fill c ino offset i dst) k
      ≡ some (synth_byte ino (wrapping_add offset (i + k)) c.seed)
unfolding fill
get_elem?-fill c ino offset i [] k h = absurd (omega arith)
get_elem?-fill c ino offset i (b ∷ dst) zero h =
    ap (λ n. some (synth_byte ino (wrapping_add offset n) c.seed)) (omega arith)
get_elem?-fill c ino offset i (b ∷ dst) (suc k) h =
    get_elem?-fill c ino offset (suc i) dst k (omega arith)
    ∙ ap (λ n. some (synth_byte ino (wrapping_add offset n) c.seed)) (omega arith)

length-fill :
    (c : DeterministicContent) (ino offset i : ℕ) (dst : List ℕ)
    → length (fill c ino offset i dst) ≡ length dst
unfolding fill
length-fill c ino offset i [] = refl
length-fill c ino offset i (b ∷ dst) = ap suc (length-fill c ino offset (suc i) dst)

-- What a buffer held before a read does not matter, only its length; and position `i` of a read at
-- `offset` is position 0 of one at `offset + i`.
fill-shift :
    (c : DeterministicContent) (ino offset i j : ℕ) (dst other : List ℕ)
    → length dst ≡ length other
    → fill c ino offset (i + j) dst ≡ fill c ino (wrapping_add offset i) j other
unfolding fill
fill-shift c ino offset i j [] [] h = refl
fill-shift c ino offset i j [] (y ∷ other) h = absurd (omega arith)
fill-shift c ino offset i j (x ∷ dst) [] h = absurd (omega arith)
fill-shift c ino offset i j (x ∷ dst) (y ∷ other) h =
    let place : wrapping_add offset (i + j) ≡ wrapping_add (wrapping_add offset i) j =
      omega arith in
    let tail : fill c ino offset (suc (i + j)) dst
        ≡ fill c ino (wrapping_add offset i) (suc j) other =
      ap (λ n. fill c ino offset n dst) (omega arith)
      ∙ fill-shift c ino offset i (suc j) dst other (omega arith) in
    rw (place, tail) refl

fill-append :
    (c : DeterministicContent) (ino offset i : ℕ) (front back : List ℕ)
    → fill c ino offset i (front ++ back)
      ≡ fill c ino offset i front ++ fill c ino offset (i + length front) back
unfolding fill
fill-append c ino offset i [] back = ap (λ n. fill c ino offset n back) (omega arith)
fill-append c ino offset i (b ∷ front) back =
    ap (λ t. synth_byte ino (wrapping_add offset i) c.seed ∷ t)
      (fill-append c ino offset (suc i) front back
        ∙ ap (λ n. fill c ino offset (suc i) front ++ fill c ino offset n back) (omega arith))

pub length-read_at :
    (c : DeterministicContent) (ino offset : ℕ) (dst : List ℕ)
    → length (read_at c ino offset dst) ≡ length dst
unfolding read_at
length-read_at c ino offset dst = length-fill c ino offset 0 dst

-- A read gives as many bytes as the buffer has, whatever the buffer held, and at a position `k` of
-- the buffer the synthetic byte of the inode at the offset `offset + k`, modulo 2^64.
pub read_at-bytes :
    (c : DeterministicContent) (ino offset : ℕ) (dst : List ℕ) (k : ℕ)
    → k < length dst
    → (length (read_at c ino offset dst) ≡ length dst)
      × (get_elem? (read_at c ino offset dst) k
          ≡ some (synth_byte ino (wrapping_add offset k) c.seed))
unfolding read_at
read_at-bytes c ino offset dst k h = (
  length-fill c ino offset 0 dst,
  get_elem?-fill c ino offset 0 dst k h
      ∙ ap (λ n. some (synth_byte ino (wrapping_add offset n) c.seed)) (omega arith),
)

-- One read of a buffer in two parts is the read of the first part at the offset, followed by the
-- read of the second part, from any buffer of its length, behind the first: so reads in chunks of
-- any sizes give the bytes of one read.
pub read_at-append :
    (c : DeterministicContent) (ino offset : ℕ) (front back other : List ℕ)
    → length back ≡ length other
    → read_at c ino offset (front ++ back)
      ≡ read_at c ino offset front ++ read_at c ino (wrapping_add offset (length front)) other
unfolding read_at
read_at-append c ino offset front back other h =
    fill-append c ino offset 0 front back
    ∙ ap (λ t. fill c ino offset 0 front ++ t)
        (ap (λ n. fill c ino offset n back) (omega arith)
          ∙ fill-shift c ino offset (length front) 0 back other h)
