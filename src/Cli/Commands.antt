-- ===== src/Cli/Commands.antt =====
-- crates/fusecraft-cli/src: the three commands, and the loading of the configuration.
use Prim.Native.String.{String}
use fusecraft_rs.Base.{◌-◌, leb, not, if◌then◌else◌, Option, none, some}
use fusecraft_rs.Error.{Libc}
use fusecraft_rs.Float.{Float}
use fusecraft_rs.Config.{Config, default_config}
use fusecraft_rs.Config.Validate.{validate}
use fusecraft_rs.Config.Table.{read_config}
use fusecraft_rs.Config.Table.Write.{write_config}
use fusecraft_rs.Metrics.{Histogram, print_summary}
use fusecraft_rs.Engine.{SimEngine}
use fusecraft_rs.Engine as Engine
use fusecraft_rs.Namespace as Namespace
use fusecraft_rs.Content.{DeterministicContent}
use fusecraft_rs.Fuse.{FaultFs, new_fs}
use fusecraft_rs.Fuse.Mount.{MountHandle, spawn_mount}
use fusecraft_rs.Fuse.Options.{from_mount_config, to_fuser_config}
use fusecraft_rs.Cli.{
  Command, Host, Ran, ◌>>=◌, ◌>>◌, return, perform, with_context, map_err, when, bail_if,
  drop_on_error, not_a_directory, unreadable_config, invalid_toml, validation_failed, no_event_log,
  failed_to_mount, no_ctrl_c_handler, unserializable_default, starting, mounted_on, shutting_down,
  flushed_event_log, auto_unmount_downgraded, failed_to_flush, init_tracing, info,
  inode_count_clamped, warn, truncated, mounted, set_handler, interrupted, unmounted,
  printed_summary, flushed, config_ok, printed, terminate,
}

module _ {F H W K : Type 0} ⦃fl : Float F⦄ ⦃libc : Libc⦄ ⦃histogram : Histogram H⦄
    (host : Host F H W K) where
  unfoldable pub parse_config : String → String → Ran (Config F)
  parse_config path text = do
    table ← with_context (host.parse_toml text) (invalid_toml path none)
    map_err (read_config table) (λ e. invalid_toml path (some e))

  unfoldable pub load_config : String → Ran (Config F)
  unfolding parse_config
  load_config path = do
    text ← with_context (host.read_to_string path) (unreadable_config path)
    config ← parse_config path text
    map_err (validate config) (validation_failed path)
    return config

  unfoldable pub default_config_toml : Ran String
  default_config_toml =
      with_context (host.to_string_pretty (write_config (default_config {F = F})))
        unserializable_default

  -- `FlatObjectNamespace::new`, with what it prints.
  unfoldable pub new_namespace : Config F → Ran Namespace.FlatObjectNamespace
  new_namespace config = do
    when (leb Namespace.max_files config.files.inode_count)
        (perform (inode_count_clamped config.files.inode_count (Namespace.max_files - 1)))
    return (Namespace.new config.files host.uid host.gid host.now_secs)

  -- The match on `jsonl_path`.
  unfoldable pub open_event_log : Option String → Ran (Option W)
  open_event_log none = return none
  open_event_log (some path) = do
    sink ← with_context (host.create_file path) (no_event_log path)
    perform (truncated path)
    return (some sink)

  unfoldable pub flush_event_log : Option String → Option W → Ran (Unit {0})
  flush_event_log (some path) (some sink) = do
    perform (flushed path)
    perform (
        if host.flush_writer sink
        then info (flushed_event_log path)
        else warn (failed_to_flush path))
  flush_event_log _ _ = return tt

  unfoldable pub await_interrupt : Ran (Unit {0})
  await_interrupt = do
    bail_if (not host.ctrlc_set_handler) no_ctrl_c_handler
    perform set_handler
    perform interrupted

  -- The engine, the namespace and the content, put together.
  unfoldable pub build_fs : Config F → Option W → Ran (FaultFs F H (Option W))
  unfolding new_namespace
  build_fs config event_sink = do
    let engine = Engine.new config event_sink host.now
    namespace ← new_namespace config
    let content : DeterministicContent = record {
      seed = config.seed;
      file_length = config.files.file_size_bytes;
    }
    return (new_fs engine namespace content)

  -- `spawn_mount`, which mounts if it succeeds.
  unfoldable pub mount_fs : Config F → FaultFs F H (Option W) → String → Ran (MountHandle K)
  mount_fs config fs mountpoint = do
    let opts = from_mount_config config.mount
    when config.mount.auto_unmount (perform (warn auto_unmount_downgraded))
    handle ← map_err (spawn_mount host.spawn_mount2 fs mountpoint opts) failed_to_mount
    perform (mounted mountpoint (to_fuser_config opts))
    return handle

  -- From the mount to the end of `run`, over the handle.
  unfoldable pub run_mounted :
      Config F → FaultFs F H (Option W) → String → MountHandle K → Ran (Unit {0})
  unfolding await_interrupt flush_event_log
  run_mounted config fs mountpoint handle = do
    perform (info (mounted_on mountpoint))
    drop_on_error (unmounted mountpoint) await_interrupt
    perform (info shutting_down)
    perform (unmounted mountpoint)
    let engine = host.serve handle.session fs
    perform (printed_summary (print_summary engine.metrics))
    flush_event_log config.metrics.jsonl_path engine.events

  -- `run` once the configuration is loaded.
  unfoldable pub launch : Config F → String → Ran (Unit {0})
  unfolding open_event_log build_fs mount_fs run_mounted
  launch config mountpoint = do
    perform init_tracing
    perform (info (starting config.seed config.files.inode_count config.files.file_size_bytes))
    event_sink ← open_event_log config.metrics.jsonl_path
    fs ← build_fs config event_sink
    handle ← mount_fs config fs mountpoint
    run_mounted config fs mountpoint handle

  -- `commands::mount::run`
  unfoldable pub mount_run : String → String → Ran (Unit {0})
  unfolding load_config launch
  mount_run config_path mountpoint = do
    bail_if (not (host.is_dir mountpoint)) (not_a_directory mountpoint)
    config ← load_config config_path
    launch config mountpoint

  -- `commands::validate::run`
  unfoldable pub validate_run : String → Ran (Unit {0})
  unfolding load_config
  validate_run config_path = do config ← load_config config_path; perform (config_ok config_path)

  -- `commands::print_default::run`
  unfoldable pub print_default_run : Ran (Unit {0})
  unfolding default_config_toml
  print_default_run = do toml_text ← default_config_toml; perform (printed toml_text)

  -- The match of `main`.
  unfoldable pub run_command : Command → Ran (Unit {0})
  unfolding mount_run validate_run print_default_run
  run_command (Command.mount config mountpoint) = mount_run config mountpoint
  run_command (Command.validate_config config) = validate_run config
  run_command Command.print_default_config = print_default_run

  unfoldable pub main : Command → Ran (Unit {0})
  unfolding run_command terminate
  main command = terminate (run_command command)
