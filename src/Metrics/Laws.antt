-- ===== src/Metrics/Laws.antt =====
-- The summary of a recorder that was fed calls, against counts of the calls themselves.
use fusecraft_rs.Base.{
  ℕ, suc, ◌+◌, ◌<◌, ◌≤◌, ◌≡◌, subst, refl, ap, sym, Bool, true, false, ◌==◌, Bool-cases, inl, inr,
  if◌then◌else◌, List, [], ◌∷◌, length, keep, Option, none, some, arith,
}
use fusecraft_rs.Base.Word.{u64_mod, wrapping_add}
use fusecraft_rs.Op.{FsOp, all, op_eq}
use fusecraft_rs.Metrics.{
  Histogram, OpHisto, OpSummary, HistogramRecorder, new, clamp, or_insert, bump, record_op,
  summarize, push_summary, filter_ops, summary,
}

-- A call as the engine reports it: its kind, its duration and whether it failed.
pub record Call : Type 0 where
  pub op : FsOp
  pub duration_us : ℕ
  pub is_error : Bool

-- The calls of one kind, newest first, and among them those that failed.
unfoldable pub calls_of : FsOp → List Call → List Call
calls_of op calls = keep (λ c. op_eq c.op op) calls

unfoldable pub failures : List Call → List Call
failures calls = keep (λ c. c.is_error) calls

length-calls_of : (op : FsOp) (calls : List Call) → length (calls_of op calls) ≤ length calls
unfolding calls_of
length-calls_of op [] = omega arith
length-calls_of op (c ∷ calls) = elim (Bool-cases (op_eq c.op op)) [
  | inl t ↦ ground (arith, length-calls_of op calls)
  | inr f ↦ ground (arith, length-calls_of op calls)
]

module _ {H : Type 0} ⦃histogram : Histogram H⦄ where
  open histogram use {empty, record_value, value_at}

  -- The recorder after calls that are listed with the newest first.
  unfoldable pub record_all : List Call → HistogramRecorder H
  record_all [] = new
  record_all (c ∷ calls) = record_op (record_all calls) c.op c.duration_us c.is_error

  unfoldable pub histogram_of : List Call → H
  histogram_of [] = empty
  histogram_of (c ∷ calls) = record_value (histogram_of calls) (clamp c.duration_us)

-- What the summary is to say of the calls of one kind.
unfoldable pub line_of :
    (H : Type 0) ⦃histogram : Histogram H⦄ → FsOp → List Call → Option OpSummary
unfolding failures histogram_of
line_of H ⦃histogram⦄ op [] = none
line_of H ⦃histogram⦄ op (c ∷ rest) =
    let calls = c ∷ rest in
    some (record {
      op = op;
      count = length calls;
      errors = length (failures calls);
      p50_us = histogram.value_at (histogram_of {H = H} calls) 500;
      p95_us = histogram.value_at (histogram_of {H = H} calls) 950;
      p99_us = histogram.value_at (histogram_of {H = H} calls) 990;
      p999_us = histogram.value_at (histogram_of {H = H} calls) 999;
    })

-- The lines of the kinds that have calls.
unfoldable pub lines_of :
    (H : Type 0) ⦃histogram : Histogram H⦄ → List Call → List FsOp → List OpSummary
unfolding line_of calls_of
lines_of H ⦃histogram⦄ calls [] = []
lines_of H ⦃histogram⦄ calls (op ∷ ops) =
    push_summary (line_of H op (calls_of op calls)) (lines_of H calls ops)

module _ {H : Type 0} ⦃histogram : Histogram H⦄ where
  open histogram use {empty, record_value, value_at}

  -- The entry that calls of one kind leave behind.
  abbrev pub IsEntry : List Call → OpHisto H → Type 0
  IsEntry calls e =
      (e.histo ≡ histogram_of calls)
      × (e.count_err ≡ length (failures calls))
      × (e.count_ok + e.count_err ≡ length calls)

  fresh-IsEntry : IsEntry [] (or_insert none)
  unfolding or_insert histogram_of failures
  fresh-IsEntry = (refl, refl, refl)

  bump-IsEntry :
      (c : Call) (calls : List Call) (e : OpHisto H)
      → length calls + 1 < u64_mod
      → IsEntry calls e
      → IsEntry (c ∷ calls) (bump c.duration_us c.is_error e)
  unfolding bump histogram_of failures
  bump-IsEntry c calls e small (h, errs, both) = elim (Bool-cases c.is_error) [
    | inl t ↦ (ground (arith, h), ground (arith, errs, both), ground (arith, errs, both))
    | inr f ↦ (ground (arith, h), ground (arith, errs, both), ground (arith, errs, both))
  ]

  -- The entry of a kind that has calls, and none for a kind without.
  abbrev pub IsTracked : List Call → Option (OpHisto H) → Type 0
  IsTracked [] o = o ≡ none
  IsTracked (c ∷ calls) o = (e : OpHisto H) × (o ≡ some e) × IsEntry (c ∷ calls) e

  or_insert-IsEntry :
      (calls : List Call) (o : Option (OpHisto H)) → IsTracked calls o → IsEntry calls (or_insert o)
  unfolding or_insert
  or_insert-IsEntry [] o t = subst (λ o. IsEntry [] (or_insert o)) (sym t) fresh-IsEntry
  or_insert-IsEntry (c ∷ calls) o (e, same, t) =
      subst (λ o. IsEntry (c ∷ calls) (or_insert o)) (sym same) t

  -- One more call, of the kind in question or not.
  record-IsTracked :
      (b : Bool) (c : Call) (calls : List Call) (o : Option (OpHisto H))
      → length calls + 1 < u64_mod
      → IsTracked calls o
      → IsTracked
          (if b then c ∷ calls else calls)
          (if b then some (bump c.duration_us c.is_error (or_insert o)) else o)
  record-IsTracked true c calls o small t = (
    bump c.duration_us c.is_error (or_insert o),
    refl,
    bump-IsEntry c calls (or_insert o) small (or_insert-IsEntry calls o t),
  )
  record-IsTracked false c calls o small t = t

  summarize-IsTracked :
      (op : FsOp) (calls : List Call) (o : Option (OpHisto H))
      → length calls < u64_mod
      → IsTracked calls o
      → summarize op o ≡ line_of H op calls
  unfolding summarize line_of
  summarize-IsTracked op [] o small t = ap (summarize op) t
  summarize-IsTracked op (c ∷ calls) o small (e, same, (h, errs, both)) =
      let sum : wrapping_add e.count_ok e.count_err ≡ suc (length calls) = omega arith in
      let positive : (suc (length calls) == 0) ≡ false = ground arith in
      subst (λ o. summarize op o ≡ line_of H op (c ∷ calls)) (sym same)
        (rw (sum, positive, errs, h) refl)

module _ (H : Type 0) ⦃histogram : Histogram H⦄ where
  record_all-IsTracked :
      (op : FsOp) (calls : List Call)
      → length calls < u64_mod
      → IsTracked (calls_of op calls) ((record_all {H = H} calls).per_op op)
  unfolding record_all calls_of new record_op
  record_all-IsTracked op [] small = refl
  record_all-IsTracked op (c ∷ calls) small =
      record-IsTracked (op_eq c.op op) c (calls_of op calls) ((record_all calls).per_op op)
        (omega (arith, length-calls_of op calls)) (record_all-IsTracked op calls (omega arith))

  filter_ops-record_all :
      (calls : List Call) (ops : List FsOp)
      → length calls < u64_mod
      → filter_ops (record_all {H = H} calls) ops ≡ lines_of H calls ops
  unfolding filter_ops lines_of
  filter_ops-record_all calls [] small = refl
  filter_ops-record_all calls (op ∷ ops) small =
      rw
        (
          summarize-IsTracked op (calls_of op calls) ((record_all {H = H} calls).per_op op)
              (omega (arith, length-calls_of op calls)) (record_all-IsTracked op calls small),
          filter_ops-record_all calls ops small,
        )
        refl

  -- The summary of a new recorder that was fed fewer than 2^64 calls has, in the order of
  -- `FsOp::ALL`, one line for each kind that was called and none for the others. The line has the
  -- number of calls of the kind, the number of those that failed, and the percentiles of the
  -- histogram of their durations, clamped to [1, 60000000].
  pub summary-record_all :
      (calls : List Call)
      → length calls < u64_mod
      → summary (record_all {H = H} calls) ≡ lines_of H calls all
  unfolding summary
  summary-record_all calls small = filter_ops-record_all calls all small
