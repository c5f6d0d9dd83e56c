-- ===== src/Sampler/Key/Mixing.antt =====
-- The mixing of a key into a seed, step by step: each step is injective on 64-bit words.
use Prim.Native.Nat.{bit_xor}
use fusecraft_rs.Base.{ℕ, ◌^◌, ◌<◌, ◌≡◌, ◌≢◌, List, [], ◌∷◌, arith}
use fusecraft_rs.Base.Word.{u64_mod, rotate_left, wrapping_mul, shr}
use fusecraft_rs.Base.Bits.{
  bit_xor_cancel_left, bit_xor_cancel_right, bit_xor-lt, xorshift-injective,
}
use fusecraft_rs.Op.{FsOp, discriminant}
use fusecraft_rs.Op.Laws.{discriminant-injective, discriminant-lt}
use fusecraft_rs.Sampler.Key.{SampleKey, combine, mix_round, mix, latency_stream, fault_stream}

-- The fields of a key lie in the ranges of their Rust types.
pub record IsKey (k : SampleKey) : Type 0 where
  pub seed : k.seed < u64_mod
  pub ino : k.ino < u64_mod
  pub offset : k.offset < u64_mod
  pub len : k.len < 2 ^ 32
  pub seq : k.seq < u64_mod

-- The multipliers of the finalizer are odd, so they have inverses modulo 2^64.
first_mul_injective :
    (x y : ℕ)
    → x < u64_mod
    → y < u64_mod
    → wrapping_mul x 0xbf58_476d_1ce4_e5b9 ≡ wrapping_mul y 0xbf58_476d_1ce4_e5b9
    → x ≡ y
first_mul_injective x y p q h = omega arith

second_mul_injective :
    (x y : ℕ)
    → x < u64_mod
    → y < u64_mod
    → wrapping_mul x 0x94d0_49bb_1331_11eb ≡ wrapping_mul y 0x94d0_49bb_1331_11eb
    → x ≡ y
second_mul_injective x y p q h = omega arith

rotate_11 : (x y : ℕ) → x < u64_mod → y < u64_mod → rotate_left x 11 ≡ rotate_left y 11 → x ≡ y
rotate_11 x y p q h = omega arith

rotate_23 : (x y : ℕ) → x < u64_mod → y < u64_mod → rotate_left x 23 ≡ rotate_left y 23 → x ≡ y
rotate_23 x y p q h = omega arith

rotate_37 : (x y : ℕ) → x < u64_mod → y < u64_mod → rotate_left x 37 ≡ rotate_left y 37 → x ≡ y
rotate_37 x y p q h = omega arith

rotate_47 : (x y : ℕ) → x < u64_mod → y < u64_mod → rotate_left x 47 ≡ rotate_left y 47 → x ≡ y
rotate_47 x y p q h = omega arith

rotate_53 : (x y : ℕ) → x < u64_mod → y < u64_mod → rotate_left x 53 ≡ rotate_left y 53 → x ≡ y
rotate_53 x y p q h = omega arith

-- A round of the finalizer and its last step are injective on 64-bit numbers.
round_27 :
    (x y : ℕ)
    → x < u64_mod
    → y < u64_mod
    → mix_round 27 0x94d0_49bb_1331_11eb x ≡ mix_round 27 0x94d0_49bb_1331_11eb y
    → x ≡ y
unfolding mix_round
round_27 x y p q h = xorshift-injective 26 x y (
    second_mul_injective (bit_xor x (shr x 27)) (bit_xor y (shr y 27))
      (bit_xor-lt 64 x (shr x 27) p (omega arith)) (bit_xor-lt 64 y (shr y 27) q (omega arith)) h)

round_30 :
    (x y : ℕ)
    → x < u64_mod
    → y < u64_mod
    → mix_round 30 0xbf58_476d_1ce4_e5b9 x ≡ mix_round 30 0xbf58_476d_1ce4_e5b9 y
    → x ≡ y
unfolding mix_round
round_30 x y p q h = xorshift-injective 29 x y (
    first_mul_injective (bit_xor x (shr x 30)) (bit_xor y (shr y 30))
      (bit_xor-lt 64 x (shr x 30) p (omega arith)) (bit_xor-lt 64 y (shr y 30) q (omega arith)) h)

mix_round-lt : (k c x : ℕ) → mix_round k c x < u64_mod
unfolding mix_round
mix_round-lt k c x = omega arith

combine-lt : (k : SampleKey) (stream : ℕ) → IsKey k → stream < u64_mod → combine k stream < u64_mod
unfolding combine
combine-lt k stream v h =
    let op_lt = discriminant-lt k.op in
    let l1 = bit_xor-lt 64 k.seed (rotate_left (discriminant k.op) 11) v.seed (omega arith) in
    let l2 = bit_xor-lt 64 _ (rotate_left k.ino 23) l1 (omega (arith, v.ino)) in
    let l3 = bit_xor-lt 64 _ (rotate_left k.offset 37) l2 (omega (arith, v.offset)) in
    let l4 = bit_xor-lt 64 _ (rotate_left k.len 47) l3 (omega (arith, v.len)) in
    let l5 = bit_xor-lt 64 _ (rotate_left k.seq 53) l4 (omega (arith, v.seq)) in
    bit_xor-lt 64 _ stream l5 h

-- Equal seeds of the generator come from equal combinations of the fields.
mix-combine :
    (j k : SampleKey) (s t : ℕ)
    → IsKey j
    → IsKey k
    → s < u64_mod
    → t < u64_mod
    → mix j s ≡ mix k t
    → combine j s ≡ combine k t
unfolding mix
mix-combine j k s t vj vk hs ht h = round_30 _ _ (combine-lt j s vj hs) (combine-lt k t vk ht) (
    round_27 _ _ (mix_round-lt 30 0xbf58_476d_1ce4_e5b9 (combine j s))
      (mix_round-lt 30 0xbf58_476d_1ce4_e5b9 (combine k t)) (xorshift-injective 30 _ _ h))

-- Two keys that differ in one field and agree in the others.
pub data OneField (k : SampleKey) : SampleKey → Type 0 where
  seed : (v : ℕ) → v ≢ k.seed → OneField k (record k { seed = v })
  op : (v : FsOp) → v ≢ k.op → OneField k (record k { op = v })
  ino : (v : ℕ) → v ≢ k.ino → OneField k (record k { ino = v })
  offset : (v : ℕ) → v ≢ k.offset → OneField k (record k { offset = v })
  len : (v : ℕ) → v ≢ k.len → OneField k (record k { len = v })
  seq : (v : ℕ) → v ≢ k.seq → OneField k (record k { seq = v })

-- The exclusive or of a number with each entry of a list, from the left.
abbrev chain : ℕ → List ℕ → ℕ
chain a [] = a
chain a (x ∷ xs) = chain (bit_xor a x) xs

chain_cancel : (xs : List ℕ) (a b : ℕ) → chain a xs ≡ chain b xs → a ≡ b
chain_cancel [] a b h = h
chain_cancel (x ∷ xs) a b h =
    bit_xor_cancel_right x a b (chain_cancel xs (bit_xor a x) (bit_xor b x) h)

combine-OneField :
    (k : SampleKey) {j : SampleKey} (s : ℕ)
    → IsKey k
    → IsKey j
    → OneField k j
    → combine j s ≢ combine k s
unfolding combine
combine-OneField k s vk vj (seed v ne) e = ne (
    chain_cancel
      (rotate_left (discriminant k.op) 11
        ∷ rotate_left k.ino 23
        ∷ rotate_left k.offset 37
        ∷ rotate_left k.len 47
        ∷ rotate_left k.seq 53
        ∷ s
        ∷ [])
      v k.seed e)
combine-OneField k s vk vj (op v ne) e =
    let parts =
      chain_cancel
        (rotate_left k.ino 23
          ∷ rotate_left k.offset 37
          ∷ rotate_left k.len 47
          ∷ rotate_left k.seq 53
          ∷ s
          ∷ [])
        _ _ e in
    ne (
      discriminant-injective v k.op (
        rotate_11 _ _ (omega (arith, discriminant-lt v)) (omega (arith, discriminant-lt k.op))
          (bit_xor_cancel_left k.seed _ _ parts)))
combine-OneField k s vk vj (ino v ne) e =
    let parts =
      chain_cancel (rotate_left k.offset 37 ∷ rotate_left k.len 47 ∷ rotate_left k.seq 53 ∷ s ∷ [])
        _ _ e in
    ne (rotate_23 v k.ino vj.ino vk.ino (bit_xor_cancel_left _ _ _ parts))
combine-OneField k s vk vj (offset v ne) e =
    let parts = chain_cancel (rotate_left k.len 47 ∷ rotate_left k.seq 53 ∷ s ∷ []) _ _ e in
    ne (rotate_37 v k.offset vj.offset vk.offset (bit_xor_cancel_left _ _ _ parts))
combine-OneField k s vk vj (len v ne) e =
    let parts = chain_cancel (rotate_left k.seq 53 ∷ s ∷ []) _ _ e in
    ne (
      rotate_47 v k.len (omega (arith, vj.len)) (omega (arith, vk.len))
        (bit_xor_cancel_left _ _ _ parts))
combine-OneField k s vk vj (seq v ne) e =
    let parts = chain_cancel (s ∷ []) _ _ e in
    ne (rotate_53 v k.seq vj.seq vk.seq (bit_xor_cancel_left _ _ _ parts))

-- Keys whose fields lie in the ranges of their types and that differ in one field seed different
-- generators, on any one stream below 2^64.
pub mix-OneField :
    (k j : SampleKey) (s : ℕ) → IsKey k → IsKey j → s < u64_mod → OneField k j → mix j s ≢ mix k s
mix-OneField k j s vk vj h d e = combine-OneField k s vk vj d (mix-combine j k s s vj vk h h e)

-- The latency and the fault generator of one key, whose fields lie in the ranges of their types,
-- have different seeds.
pub mix-streams : (k : SampleKey) → IsKey k → mix k latency_stream ≢ mix k fault_stream
unfolding combine
mix-streams k v e =
    let same =
      bit_xor_cancel_left _ latency_stream fault_stream
        (mix-combine k k latency_stream fault_stream v v (omega arith) (omega arith) e) in
    absurd (omega arith)
