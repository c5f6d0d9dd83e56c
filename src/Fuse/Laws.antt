-- ===== src/Fuse/Laws.antt =====
-- What the handlers reply when the engine lets them through.
use fusecraft_rs.Base.{
  ℕ, zero, suc, ◌+◌, ◌-◌, ◌≤◌, ◌≡◌, refl, ap, sym, subst, ◌∙◌, Bool, true, false, Bool-cases, inl,
  inr, ltb, ltb→lt, if◌then◌else◌, replicate, ◌==◌, List, [], ◌∷◌, ◌++◌, length, replicate, drop,
  get_elem?, none, some, ok, min, arith,
}
use fusecraft_rs.Base.Word.{wrapping_add, duration_max, from_micros}
use fusecraft_rs.Op as Op
use fusecraft_rs.Error.{Libc}
use fusecraft_rs.Float.{Float, Rng}
use fusecraft_rs.Namespace as Namespace
use fusecraft_rs.Namespace.{Entry}
use fusecraft_rs.Namespace.Listing.{feed, listing, read_listing, readdir-listing}
use fusecraft_rs.Content.{DeterministicContent, read_at, synth_byte, file_len}
use fusecraft_rs.Content.Laws.{length-read_at, read_at-bytes}
use fusecraft_rs.Events.{EventSink}
use fusecraft_rs.Metrics.{Histogram}
use fusecraft_rs.Limiter.Concurrency.{LimiterState, granted, acquire}
use fusecraft_rs.Engine.{OpResources, SimEngine, Clock, returned, get_resources, metadata}
use mathlib.Core.List.{append-nil, append_assoc}
use fusecraft_rs.Engine.Slot.{fault_of, latency_of, delay_of, run_op_no_fault}
use fusecraft_rs.Fuse.{
  Fuser, FaultFs, bytes, directory, replied, answer, pure, readable, read_context, read_body,
  collector, add_entries, read, readdir,
}

length-replicate : (n : ℕ) → length (replicate {A = ℕ} n 0) ≡ n
length-replicate zero = refl
length-replicate (suc n) = ap suc (length-replicate n)

get_elem?-past : (xs : List ℕ) (k : ℕ) → length xs ≤ k → get_elem? xs k ≡ none
get_elem?-past [] k h = refl
get_elem?-past (x ∷ xs) zero h = absurd (omega arith)
get_elem?-past (x ∷ xs) (suc k) h = get_elem?-past xs k (omega arith)

-- A reply of a read: the bytes of the file at the positions from `offset` on, `n` of them.
abbrev pub IsFileBytes : DeterministicContent → (ino offset n : ℕ) → List ℕ → Type 0
IsFileBytes content ino offset n bs =
    (length bs ≡ n)
    × ((k : ℕ)
        → get_elem? bs k
          ≡ (if ltb k n then some (synth_byte ino (wrapping_add offset k) content.seed) else none))

read_at-IsFileBytes :
    (content : DeterministicContent) (ino offset n : ℕ)
    → IsFileBytes content ino offset n (read_at content ino offset (replicate n 0))
read_at-IsFileBytes content ino offset n =
    let bs = read_at content ino offset (replicate n 0) in
    let long : length bs ≡ n =
      length-read_at content ino offset (replicate n 0) ∙ length-replicate n in
    (
      long,
      λ k. elim (Bool-cases (ltb k n)) [
        | inl below ↦
            rw below
              (read_at-bytes content ino offset (replicate n 0) k
                (omega (arith, length-replicate n, ltb→lt k n below))).1
        | inr past ↦ rw past (get_elem?-past bs k (ground (arith, long, past)))
      ],
    )

read_body-IsFileBytes :
    (content : DeterministicContent) (ino offset n : ℕ)
    → IsFileBytes content ino offset n (read_body content ino offset n)
unfolding read_body
read_body-IsFileBytes content ino offset zero = (refl, λ k. ground arith)
read_body-IsFileBytes content ino offset (suc n) =
    let positive : (suc n == 0) ≡ false = ground arith in
    rw positive (read_at-IsFileBytes content ino offset (suc n))

readable-min : (l offset size : ℕ) → readable l offset size ≡ min (l - offset) size
unfolding readable
readable-min l offset size = ground arith

-- A buffer filled with entries in their order: with all of them, or up to the first one that the
-- buffer says did not fit.
pub data Filled {D : Type 0} (add : D → Entry → D × Bool) : List Entry → D → D → Type 0 where
  empty : {d : D} → Filled add [] d d
  stopped :
      {e : Entry} {es : List Entry} {d d' : D} → add d e ≡ (d', true) → Filled add (e ∷ es) d d'
  added :
      {e : Entry} {es : List Entry} {d d' d'' : D}
      → add d e ≡ (d', false)
      → Filled add es d' d''
      → Filled add (e ∷ es) d d''

add_entries-Filled :
    {D : Type 0} (add : D → Entry → D × Bool) (es : List Entry) (d : D)
    → Filled add es d (add_entries add es d)
unfolding add_entries
add_entries-Filled add [] d = empty
add_entries-Filled add (e ∷ es) d = elim (Bool-cases (add d e).1) [
  | inl full ↦ rw full (stopped (ap (λ b. ((add d e).0, b)) full))
  | inr fits ↦
      rw fits (added (ap (λ b. ((add d e).0, b)) fits) (add_entries-Filled add es (add d e).0))
]

feed-collector : (es acc : List Entry) → feed collector es acc ≡ acc ++ es
unfolding feed
feed-collector [] acc = sym (append-nil acc)
feed-collector (e ∷ es) acc = feed-collector es (acc ++ (e ∷ [])) ∙ append_assoc acc (e ∷ []) es

module _ {F H S : Type 0} (D : Type 0) ⦃fl : Float F⦄ ⦃rng : Rng F⦄ ⦃libc : Libc⦄ ⦃fuser : Fuser⦄
    ⦃histogram : Histogram H⦄ ⦃sink : EventSink S⦄ (fs : FaultFs F H S) (t : Clock)
    (r : OpResources F) (wait : ℕ) (s : LimiterState)
    (got : acquire r.limiter t.wakes ≡ granted wait s) where
  -- A read that gets a slot, draws no fault and whose delays fit a `Duration` replies bytes: as
  -- many as were asked for, cut at the end of the file, so that there are none from the end on;
  -- the one at each position `k` is the synthetic byte of the inode at the offset plus `k`,
  -- modulo 2^64, and there are no others.
  pub read-bytes :
      (ino offset size : ℕ)
      → get_resources (read_context fs.content ino offset size).op fs.engine.resources ≡ some r
      → from_micros (latency_of fs.engine (read_context fs.content ino offset size) r)
          + delay_of (read_context fs.content ino offset size) t r
        ≤ duration_max
      → fault_of fs.engine (read_context fs.content ino offset size) r ≡ none
      → (bs : List ℕ) × (e' : SimEngine F H S) × (read D fs t ino offset size
          ≡ replied (bytes bs) e')
        × IsFileBytes fs.content ino offset (min (file_len fs.content ino - offset) size) bs
  unfolding read answer
  read-bytes ino offset size found fits no_fault =
      let n = readable (file_len fs.content ino) offset size in
      let bs = read_body fs.content ino offset n in
      let ctx = read_context fs.content ino offset size in
      let (e', ran) =
        run_op_no_fault ctx t (pure (ok bs)) r fs.engine tt wait s found got fits no_fault in
      (
        bs,
        e',
        ap (answer bytes) ran,
        subst (λ m. IsFileBytes fs.content ino offset m bs)
            (readable-min (file_len fs.content ino) offset size)
            (read_body-IsFileBytes fs.content ino offset n),
      )

  -- A `readdir` of a directory that gets a slot, draws no fault and whose delays fit a `Duration`
  -- replies the kernel's buffer, to which the entries of the directory's listing from the offset
  -- on have been added in their order: all of them, or up to and with the first one of which the
  -- buffer says that it did not fit.
  pub readdir-reply :
      (add : D → Entry → D × Bool) (ino offset : ℕ) (d : D) (es : List Entry)
      → get_resources (metadata Op.readdir ino).op fs.engine.resources ≡ some r
      → from_micros (latency_of fs.engine (metadata Op.readdir ino) r)
          + delay_of (metadata Op.readdir ino) t r
        ≤ duration_max
      → fault_of fs.engine (metadata Op.readdir ino) r ≡ none
      → listing fs.namespace ino ≡ some es
      → (d' : D) × (e' : SimEngine F H S) × (readdir D fs t add ino offset d
          ≡ replied (directory d') e')
        × Filled add (drop offset es) d d'
  unfolding readdir answer
  readdir-reply add ino offset d es found fits no_fault shown =
      let collected : Namespace.readdir collector fs.namespace ino offset [] ≡ ok (drop offset es) =
        readdir-listing collector fs.namespace ino offset []
        ∙ ap (λ l. read_listing collector l offset []) shown
        ∙ ap ok (feed-collector (drop offset es) []) in
      let (e', ran) =
        run_op_no_fault (metadata Op.readdir ino) t
          (pure (Namespace.readdir collector fs.namespace ino offset [])) r fs.engine tt wait s
          found got fits no_fault in
      (
        add_entries add (drop offset es) d,
        e',
        ap (answer (λ entries. directory (add_entries add entries d)))
            (ran ∙ ap (λ res. returned res e' tt) collected),
        add_entries-Filled add (drop offset es) d,
      )
