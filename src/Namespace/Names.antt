-- ===== src/Namespace/Names.antt =====
-- Names of files: `index_to_name` and `parse_name` are inverse to one another.
use fusecraft_rs.Base.{
  ℕ, suc, ◌+◌, ◌-◌, ◌*◌, ◌/◌, ◌%◌, ◌≤◌, ◌<◌, ◌≡◌, sym, ap, ◌∙◌, true, List, [], ◌∷◌, some, lt→ltb,
  le→ltb, arith,
}
use fusecraft_rs.Namespace.{
  FlatObjectNamespace, max_files, decimal, index_to_name, all_digits, parse_u64, parse_name,
  below_count, is_ascii_digit,
}

-- The six digits of a number below a million.
abbrev six_digits : ℕ → List ℕ
six_digits n =
    (48 + n / 100000)
    ∷ (48 + n / 10000 % 10)
    ∷ (48 + n / 1000 % 10)
    ∷ (48 + n / 100 % 10)
    ∷ (48 + n / 10 % 10)
    ∷ (48 + n % 10)
    ∷ []

decimal_last : (fuel n : ℕ) (rest : List ℕ) → n < 10 → decimal (suc fuel) n rest ≡ (48 + n) ∷ rest
unfolding decimal
decimal_last fuel n rest h = rw (lt→ltb n 10 h)

decimal_more :
    (fuel n : ℕ) (rest : List ℕ)
    → 10 ≤ n
    → decimal (suc fuel) n rest ≡ decimal fuel (n / 10) ((48 + n % 10) ∷ rest)
unfolding decimal
decimal_more fuel n rest h = rw (le→ltb n 10 h)

index_to_name-six : (n : ℕ) → n < max_files → index_to_name n ≡ six_digits n
unfolding index_to_name
index_to_name-six n h = ground arith

-- The number that six digits stand for.
abbrev value : ℕ → ℕ → ℕ → ℕ → ℕ → ℕ → ℕ
value a b c d e f = (((((0 * 10 + a) * 10 + b) * 10 + c) * 10 + d) * 10 + e) * 10 + f

parse_u64_digit :
    (bs : List ℕ) (n d : ℕ)
    → d < 10
    → n < max_files
    → parse_u64 ((48 + d) ∷ bs) n ≡ parse_u64 bs (n * 10 + d)
unfolding parse_u64
parse_u64_digit bs n d h small =
    let digit : 48 + d - 48 ≡ d = omega arith in
    rw (digit, lt→ltb (n * 10 + d) 18446744073709551616 (omega arith))

abbrev text : ℕ → ℕ → ℕ → ℕ → ℕ → ℕ → List ℕ
text a b c d e f = (48 + a) ∷ (48 + b) ∷ (48 + c) ∷ (48 + d) ∷ (48 + e) ∷ (48 + f) ∷ []

module _ (a b c d e f : ℕ) (ha : a < 10) (hb : b < 10) (hc : c < 10) (hd : d < 10) (he : e < 10)
    (hf : f < 10) where
  parse_u64-text : parse_u64 (text a b c d e f) 0 ≡ some (value a b c d e f)
  unfolding parse_u64
  parse_u64-text =
      parse_u64_digit ((48 + b) ∷ (48 + c) ∷ (48 + d) ∷ (48 + e) ∷ (48 + f) ∷ []) 0 a ha
        (omega arith)
      ∙ parse_u64_digit ((48 + c) ∷ (48 + d) ∷ (48 + e) ∷ (48 + f) ∷ []) (0 * 10 + a) b hb
          (omega arith)
      ∙ parse_u64_digit ((48 + d) ∷ (48 + e) ∷ (48 + f) ∷ []) ((0 * 10 + a) * 10 + b) c hc
          (omega arith)
      ∙ parse_u64_digit ((48 + e) ∷ (48 + f) ∷ []) (((0 * 10 + a) * 10 + b) * 10 + c) d hd
          (omega arith)
      ∙ parse_u64_digit ((48 + f) ∷ []) ((((0 * 10 + a) * 10 + b) * 10 + c) * 10 + d) e he
          (omega arith)
      ∙ parse_u64_digit ([]) (((((0 * 10 + a) * 10 + b) * 10 + c) * 10 + d) * 10 + e) f hf
          (omega arith)

  six_digits-value : six_digits (value a b c d e f) ≡ text a b c d e f
  six_digits-value =
      let n = value a b c d e f in
      let ea : n / 100000 ≡ a = omega arith in
      let eb : n / 10000 % 10 ≡ b = omega arith in
      let ec : n / 1000 % 10 ≡ c = omega arith in
      let ed : n / 100 % 10 ≡ d = omega arith in
      let ee : n / 10 % 10 ≡ e = omega arith in
      let ef : n % 10 ≡ f = omega arith in rw (ea, eb, ec, ed, ee, ef)

is_digit : (d : ℕ) → d < 10 → is_ascii_digit (48 + d) ≡ true
is_digit d h = ground arith

parse_name-text :
    (ns : FlatObjectNamespace) (a b c d e f : ℕ)
    → a < 10
    → b < 10
    → c < 10
    → d < 10
    → e < 10
    → f < 10
    → parse_name ns (text a b c d e f) ≡ below_count ns (some (value a b c d e f))
unfolding parse_name all_digits
parse_name-text ns a b c d e f ha hb hc hd he hf = rw (
  is_digit a ha,
  is_digit b hb,
  is_digit c hc,
  is_digit d hd,
  is_digit e he,
  is_digit f hf,
  parse_u64-text a b c d e f ha hb hc hd he hf,
)

-- The name of a file in range is read back as its index, provided that there are at most a million
-- files.
pub parse_name-index_to_name :
    (ns : FlatObjectNamespace) (n : ℕ)
    → ns.inode_count ≤ max_files
    → n < ns.inode_count
    → parse_name ns (index_to_name n) ≡ some n
unfolding below_count
parse_name-index_to_name ns n most h = rw (index_to_name-six n (omega arith)) (
    parse_name-text ns (n / 100000) (n / 10000 % 10) (n / 1000 % 10) (n / 100 % 10) (n / 10 % 10)
      (n % 10) (omega arith) (omega arith) (omega arith) (omega arith) (omega arith) (omega arith)
    ∙ ap (below_count ns) (ap some (value_digits n))
    ∙ rw (lt→ltb n ns.inode_count h))
  where
    value_digits :
        (m : ℕ)
        → value (m / 100000) (m / 10000 % 10) (m / 1000 % 10) (m / 100 % 10) (m / 10 % 10) (m % 10)
          ≡ m
    value_digits m = omega arith

text_of : (x : ℕ) → is_ascii_digit x ≡ true → (x - 48 < 10) × (48 + (x - 48) ≡ x)
text_of x h = ground arith

-- A name of six digits that is accepted is the name of the file that it is read as.
accepted :
    (ns : FlatObjectNamespace) (a b c d e f n : ℕ)
    → a < 10
    → b < 10
    → c < 10
    → d < 10
    → e < 10
    → f < 10
    → below_count ns (some (value a b c d e f)) ≡ some n
    → (n < ns.inode_count) × (text a b c d e f ≡ index_to_name n)
unfolding below_count
accepted ns a b c d e f n ha hb hc hd he hf h =
    let same : (value a b c d e f ≡ n) × (n < ns.inode_count) = ground arith in
    (
      same.1,
      sym (
          ap index_to_name (sym same.0)
          ∙ index_to_name-six (value a b c d e f) (omega arith)
          ∙ six_digits-value a b c d e f ha hb hc hd he hf),
    )

-- A name that is accepted is the one that its index is printed as, and the index is in range.
pub parse_name_sound :
    (ns : FlatObjectNamespace) (name : List ℕ) (n : ℕ)
    → parse_name ns name ≡ some n
    → (n < ns.inode_count) × (name ≡ index_to_name n)
unfolding parse_name
parse_name_sound ns (a ∷ b ∷ c ∷ d ∷ e ∷ f ∷ []) n h =
    let (da, ea) = text_of a (ground arith) in
    let (db, eb) = text_of b (ground arith) in
    let (dc, ec) = text_of c (ground arith) in
    let (dd, ed) = text_of d (ground arith) in
    let (de, ee) = text_of e (ground arith) in
    let (df, ef) = text_of f (ground arith) in
    let spelled : text (a - 48) (b - 48) (c - 48) (d - 48) (e - 48) (f - 48)
        ≡ a ∷ b ∷ c ∷ d ∷ e ∷ f ∷ [] =
      rw (ea, eb, ec, ed, ee, ef) in
    let (low, name) =
      accepted ns (a - 48) (b - 48) (c - 48) (d - 48) (e - 48) (f - 48) n da db dc dd de df (
        sym (
          parse_name-text ns (a - 48) (b - 48) (c - 48) (d - 48) (e - 48) (f - 48) da db dc dd de
            df)
        ∙ ap (parse_name ns) spelled
        ∙ h) in
    (low, sym spelled ∙ name)
parse_name_sound ns [] n h = cc
parse_name_sound ns (a ∷ []) n h = cc
parse_name_sound ns (a ∷ b ∷ []) n h = cc
parse_name_sound ns (a ∷ b ∷ c ∷ []) n h = cc
parse_name_sound ns (a ∷ b ∷ c ∷ d ∷ []) n h = cc
parse_name_sound ns (a ∷ b ∷ c ∷ d ∷ e ∷ []) n h = cc
parse_name_sound ns (a ∷ b ∷ c ∷ d ∷ e ∷ f ∷ g ∷ rest) n h = ground arith
