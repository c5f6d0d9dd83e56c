-- ===== src/Metrics.antt =====
-- crates/fusecraft-core/src/metrics/mod.rs: counters and a histogram for each operation kind.
-- HdrHistogram is the interface `Histogram`; the map under the mutex is a function. Counters are
-- those of the release profile, where a `u64` wraps.
pub mod Laws
use Prim.Native.String.{String}
use fusecraft_rs.Base.{
  ℕ, ◌+◌, ◌==◌, Bool, if◌then◌else◌, List, [], ◌∷◌, Option, none, some, min, max, map,
}
use fusecraft_rs.Base.Word.{wrapping_add}
use fusecraft_rs.Op.{FsOp, all, op_eq, as_str}

abbrev pub hist_low : ℕ
hist_low = 1

abbrev pub hist_high : ℕ
hist_high = 60000000

-- `new_with_bounds(HIST_LOW, HIST_HIGH, 3)`, `record`, and `value_at_percentile`, which takes its
-- percentile in thousandths.
pub record Histogram (H : Type 0) : Type 0 where
  pub empty : H
  pub record_value : H → ℕ → H
  pub value_at : H → ℕ → ℕ

pub record OpHisto (H : Type 0) : Type 0 where
  pub count_ok : ℕ
  pub count_err : ℕ
  pub histo : H

pub record OpSummary : Type 0 where
  pub op : FsOp
  pub count : ℕ
  pub errors : ℕ
  pub p50_us : ℕ
  pub p95_us : ℕ
  pub p99_us : ℕ
  pub p999_us : ℕ

pub record HistogramRecorder (H : Type 0) : Type 0 where
  pub per_op : FsOp → Option (OpHisto H)

unfoldable pub new : {H : Type 0} → HistogramRecorder H
new = record { per_op = λ _. none }

unfoldable pub clamp : ℕ → ℕ
clamp duration_us = min (max duration_us hist_low) hist_high

unfoldable pub push_summary : Option OpSummary → List OpSummary → List OpSummary
push_summary none rest = rest
push_summary (some s) rest = s ∷ rest

module _ {H : Type 0} ⦃histogram : Histogram H⦄ where
  open histogram use {empty, record_value, value_at}

  -- `entry(op).or_insert_with(..)`
  unfoldable pub or_insert : Option (OpHisto H) → OpHisto H
  or_insert none = record { count_ok = 0; count_err = 0; histo = empty }
  or_insert (some entry) = entry

  unfoldable pub bump : ℕ → Bool → OpHisto H → OpHisto H
  unfolding clamp
  bump duration_us is_error entry =
      let counted =
        if is_error
        then record entry { count_err = wrapping_add entry.count_err 1 }
        else record entry { count_ok = wrapping_add entry.count_ok 1 } in
      record counted { histo = record_value entry.histo (clamp duration_us) }

  unfoldable pub record_op : HistogramRecorder H → FsOp → ℕ → Bool → HistogramRecorder H
  unfolding or_insert bump
  record_op m op duration_us is_error = record {
    per_op = λ o.
        if op_eq op o
        then some (bump duration_us is_error (or_insert (m.per_op o)))
        else m.per_op o;
  }

  -- The closure of `filter_map`.
  unfoldable pub summarize : FsOp → Option (OpHisto H) → Option OpSummary
  summarize op none = none
  summarize op (some entry) =
      let count = wrapping_add entry.count_ok entry.count_err in
      if count == 0
      then none
      else some (record {
        op = op;
        count = count;
        errors = entry.count_err;
        p50_us = value_at entry.histo 500;
        p95_us = value_at entry.histo 950;
        p99_us = value_at entry.histo 990;
        p999_us = value_at entry.histo 999;
      })

  unfoldable pub filter_ops : HistogramRecorder H → List FsOp → List OpSummary
  unfolding summarize push_summary
  filter_ops m [] = []
  filter_ops m (op ∷ ops) = push_summary (summarize op (m.per_op op)) (filter_ops m ops)

  unfoldable pub summary : HistogramRecorder H → List OpSummary
  unfolding filter_ops
  summary m = filter_ops m all

-- A line of `print_summary` on stderr, with its fields in the order of the format string.
pub record SummaryLine : Type 0 where
  pub op : String
  pub count : ℕ
  pub p50_us : ℕ
  pub p95_us : ℕ
  pub p99_us : ℕ
  pub p999_us : ℕ
  pub errors : ℕ

unfoldable pub summary_line : OpSummary → SummaryLine
summary_line s = record {
  op = as_str s.op;
  count = s.count;
  p50_us = s.p50_us;
  p95_us = s.p95_us;
  p99_us = s.p99_us;
  p999_us = s.p999_us;
  errors = s.errors;
}

unfoldable pub print_summary :
    {H : Type 0} ⦃histogram : Histogram H⦄ → HistogramRecorder H → List SummaryLine
unfolding summary
print_summary m = map summary_line (summary m)
