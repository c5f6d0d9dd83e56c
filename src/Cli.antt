-- ===== src/Cli.antt =====
-- crates/fusecraft-cli/src and crates/fusecraft-fuser/src/mount.rs: the commands of the program.
-- A command runs against a `Host`, the answers of the operating system and of the crates that it
-- calls, and its result comes with the effects that it had, in their order. A value that goes out of
-- scope has its effect there: dropping the mount handle unmounts.
pub mod Commands
pub mod Stages
pub mod Pairing
pub mod Loading
pub mod Report
use Prim.Native.String.{String}
use fusecraft_rs.Base.{
  ℕ, Bool, true, false, if◌then◌else◌, List, [], ◌∷◌, ◌++◌, Option, none, some, Result, ok, err,
}
use fusecraft_rs.Error.{FsError}
use fusecraft_rs.Config.Table.{ConfigTable, TableError}
use fusecraft_rs.Events.{Event, EventSink}
use fusecraft_rs.Metrics.{SummaryLine}
use fusecraft_rs.Engine.{SimEngine}
use fusecraft_rs.Fuse.{FaultFs}
use fusecraft_rs.Fuse.Options.{FuserConfig}

pub data Command : Type 0 where
  mount : (config mountpoint : String) → Command
  validate_config : (config : String) → Command
  print_default_config : Command

-- The contexts that anyhow wraps around a cause.
pub data CliError : Type 0 where
  not_a_directory unreadable_config : String → CliError
  invalid_toml : String → Option TableError → CliError
  validation_failed : String → FsError → CliError
  no_event_log : String → CliError
  failed_to_mount : FsError → CliError
  no_ctrl_c_handler unserializable_default : CliError

pub data Notice : Type 0 where
  starting : (seed inode_count file_size_bytes : ℕ) → Notice
  mounted_on : String → Notice
  shutting_down : Notice
  flushed_event_log : String → Notice

pub data Warning : Type 0 where
  auto_unmount_downgraded : Warning
  failed_to_flush : String → Warning

pub data Effect : Type 0 where
  init_tracing : Effect
  info : Notice → Effect
  inode_count_clamped : ℕ → ℕ → Effect
  warn : Warning → Effect
  truncated : String → Effect
  mounted : String → FuserConfig → Effect
  set_handler interrupted : Effect
  unmounted : String → Effect
  printed_summary : List SummaryLine → Effect
  flushed : String → Effect
  config_ok : String → Effect
  printed : String → Effect
  -- the `Error: ..` that `main` leaves to the standard library to print
  reported : CliError → Effect

-- `W` is the buffered writer of the event log, `K` the fuser crate's session. `serve` is the engine
-- after whatever calls the kernel makes until the mount handle is dropped.
pub record Host (F H W K : Type 0) : Type 0 where
  pub is_dir : String → Bool
  pub read_to_string : String → Option String
  -- the syntax of a TOML text, and its printing
  pub parse_toml : String → Option (ConfigTable F)
  pub to_string_pretty : ConfigTable F → Option String
  pub create_file : String → Option W
  pub to_json : Event → Option String
  pub writeln : W → String → W
  pub flush_writer : W → Bool
  pub spawn_mount2 : FaultFs F H (Option W) → String → FuserConfig → Result (Option ℕ) K
  pub ctrlc_set_handler : Bool
  pub serve : K → FaultFs F H (Option W) → SimEngine F H (Option W)
  pub now : ℕ
  pub now_secs : ℕ
  pub uid : ℕ
  pub gid : ℕ

-- A command under way: its effects so far and its result.
pub record Ran (A : Type 0) : Type 0 where
  pub effects : List Effect
  pub result : Result CliError A

infixl 5 ◌>>=◌ ◌>>◌
abbrev pub continue_with : {A B : Type 0} → List Effect → Result CliError A → (A → Ran B) → Ran B
continue_with before (ok a) f = record { effects = before ++ (f a).effects; result = (f a).result }
continue_with before (err e) f = record { effects = before; result = err e }

abbrev pub ◌>>=◌ : {A B : Type 0} → Ran A → (A → Ran B) → Ran B
m >>= f = continue_with m.effects m.result f

abbrev pub ◌>>◌ : {B : Type 0} → Ran (Unit {0}) → Ran B → Ran B
m >> k = m >>= λ _. k

abbrev pub return : {A : Type 0} → A → Ran A
return a = record { effects = []; result = ok a }

abbrev pub fail : {A : Type 0} → CliError → Ran A
fail e = record { effects = []; result = err e }

abbrev pub perform : Effect → Ran (Unit {0})
perform a = record { effects = a ∷ []; result = ok tt }

-- `with_context`, `context` and `map_err`.
abbrev pub with_context : {A : Type 0} → Option A → CliError → Ran A
with_context none e = fail e
with_context (some a) e = return a

abbrev pub map_err : {E A : Type 0} → Result E A → (E → CliError) → Ran A
map_err (ok a) f = return a
map_err (err e) f = fail (f e)

abbrev pub when : Bool → Ran (Unit {0}) → Ran (Unit {0})
when b m = if b then m else return tt

-- `bail!` under an `if`.
abbrev pub bail_if : Bool → CliError → Ran (Unit {0})
bail_if b e = if b then fail e else return tt

-- The `Arc<dyn EventSink>`: the null sink, or the JSON-lines sink.
abbrev pub emit_dyn : {W : Type 0} → EventSink W → Option W → Event → Option W
emit_dyn sink none event = none
emit_dyn sink (some w) event = some (sink.emit w event)

unfoldable pub dyn_event_sink : {W : Type 0} → EventSink W → EventSink (Option W)
dyn_event_sink sink = record { emit = emit_dyn sink }

-- A value that a `?` drops on its way out.
unfoldable pub drop_on_error : {A : Type 0} → Effect → Ran A → Ran A
drop_on_error dropped m = elim m.result [
  | ok a ↦ m
  | err e ↦ record { effects = m.effects ++ dropped ∷ []; result = err e }
]

-- What becomes of the result of `fn main`: an error goes to the standard error output.
unfoldable pub terminate : Ran (Unit {0}) → Ran (Unit {0})
terminate m = elim m.result [
  | ok a ↦ m
  | err e ↦ record { effects = m.effects ++ reported e ∷ []; result = err e }
]
