-- ===== src/Events.antt =====
-- crates/fusecraft-core/src/events/mod.rs: the event of a call and the sinks that take it.
-- serde_json and the buffered file writer are parameters of the JSON-lines sink.
use Prim.Native.String.{String}
use fusecraft_rs.Base.{ℕ, Option, none, some}
use fusecraft_rs.Op.{FsOp}

pub data Outcome : Type 0 where
  success error : Outcome

pub record Event : Type 0 where
  pub ts_unix_nanos : ℕ
  pub seq : ℕ
  pub op : FsOp
  pub ino : ℕ
  pub offset : ℕ
  pub len : ℕ
  pub outcome : Outcome
  pub errno : Option ℕ
  pub queue_wait_us : ℕ
  pub injected_latency_us : ℕ
  pub bandwidth_delay_us : ℕ
  pub total_duration_us : ℕ

-- The trait: `emit` on the sink's state.
pub record EventSink (S : Type 0) : Type 0 where
  pub emit : S → Event → S

unfoldable pub null_event_sink : EventSink (Unit {0})
null_event_sink = record { emit = λ s _. s }

-- What `serde_json::to_string` makes of an event is written as a line; a failure drops the event.
unfoldable pub write_json : {W : Type 0} → (W → String → W) → W → Option String → W
write_json writeln w none = w
write_json writeln w (some json) = writeln w json

unfoldable pub jsonl_event_sink :
    {W : Type 0} → (Event → Option String) → (W → String → W) → EventSink W
jsonl_event_sink to_string writeln = record {
  emit = λ w event. write_json writeln w (to_string event);
}
