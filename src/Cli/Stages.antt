-- ===== src/Cli/Stages.antt =====
-- The order of a command's effects.
use Prim.Native.String.{String}
use fusecraft_rs.Base.{
  ℕ, suc, ◌≤◌, ◌≡◌, sym, subst, List, [], ◌∷◌, ◌++◌, Option, none, some, inl, inr, Result-cases,
  Result, ok, err, arith,
}
use fusecraft_rs.Error.{Libc}
use fusecraft_rs.Float.{Float}
use fusecraft_rs.Config.{Config}
use fusecraft_rs.Metrics.{Histogram}
use fusecraft_rs.Fuse.{FaultFs}
use fusecraft_rs.Fuse.Mount.{MountHandle}
use fusecraft_rs.Cli.{
  Command, CliError, Effect, Host, Ran, ◌>>=◌, drop_on_error, continue_with, starting, mounted_on,
  shutting_down, flushed_event_log, auto_unmount_downgraded, failed_to_flush, init_tracing, info,
  inode_count_clamped, warn, truncated, mounted, set_handler, interrupted, unmounted,
  printed_summary, flushed, config_ok, printed, reported, terminate,
}
use fusecraft_rs.Cli.Commands.{
  parse_config, load_config, default_config_toml, new_namespace, open_event_log, flush_event_log,
  await_interrupt, build_fs, mount_fs, run_mounted, launch, mount_run, validate_run,
  print_default_run, run_command, main,
}

-- The place of an effect in a run of `mount`. The other commands have one effect, or
-- the report of an error.
abbrev pub stage : Effect → ℕ
stage init_tracing = 0
stage (info (starting _ _ _)) = 1
stage (truncated _) = 2
stage (inode_count_clamped _ _) = 3
stage (warn auto_unmount_downgraded) = 4
stage (mounted _ _) = 5
stage (info (mounted_on _)) = 6
stage set_handler = 7
stage interrupted = 8
stage (info shutting_down) = 9
stage (unmounted _) = 10
stage (printed_summary _) = 11
stage (flushed _) = 12
stage (info (flushed_event_log _)) = 13
stage (warn (failed_to_flush _)) = 13
stage (config_ok _) = 0
stage (printed _) = 0
stage (reported _) = 14

-- Effects in strictly increasing stages, from `low` and below `high`.
abbrev pub IsStaged : ℕ → ℕ → List Effect → Type 0
IsStaged low high [] = low ≤ high
IsStaged low high (a ∷ rest) = (low ≤ stage a) × IsStaged (suc (stage a)) high rest

IsStaged-weaken :
    (low low' high : ℕ) (es : List Effect)
    → low' ≤ low
    → IsStaged low high es
    → IsStaged low' high es
IsStaged-weaken low low' high [] h s = omega arith
IsStaged-weaken low low' high (a ∷ rest) h s = (omega (arith, s.0), s.1)

IsStaged-raise :
    (low high high' : ℕ) (es : List Effect)
    → high ≤ high'
    → IsStaged low high es
    → IsStaged low high' es
IsStaged-raise low high high' [] h s = omega arith
IsStaged-raise low high high' (a ∷ rest) h s =
    (s.0, IsStaged-raise (suc (stage a)) high high' rest h s.1)

IsStaged-append :
    (low mid high : ℕ) (es fs : List Effect)
    → IsStaged low mid es
    → IsStaged mid high fs
    → IsStaged low high (es ++ fs)
IsStaged-append low mid high [] fs s t = IsStaged-weaken mid low high fs s t
IsStaged-append low mid high (a ∷ rest) fs s t =
    (s.0, IsStaged-append (suc (stage a)) mid high rest fs s.1 t)

-- A command whose effects keep to stages, whatever its result.
abbrev Stays : {A : Type 0} → ℕ → ℕ → Ran A → Type 0
Stays low high m = IsStaged low high m.effects

continue_with-IsStaged :
    {A B : Type 0} (low mid high : ℕ) (es : List Effect) (r : Result CliError A) (f : A → Ran B)
    → mid ≤ high
    → IsStaged low mid es
    → ((a : A) → Stays mid high (f a))
    → Stays low high (continue_with es r f)
continue_with-IsStaged low mid high es (ok a) f h s t =
    IsStaged-append low mid high es (f a).effects s (t a)
continue_with-IsStaged low mid high es (err e) f h s t = IsStaged-raise low mid high es h s

Stays-bind :
    {A B : Type 0} (low mid high : ℕ) (m : Ran A) (f : A → Ran B)
    → mid ≤ high
    → Stays low mid m
    → ((a : A) → Stays mid high (f a))
    → Stays low high (m >>= f)
Stays-bind low mid high m f = continue_with-IsStaged low mid high m.effects m.result f

module _ {F H W K : Type 0} ⦃fl : Float F⦄ ⦃libc : Libc⦄ ⦃histogram : Histogram H⦄
    (host : Host F H W K) where
  pub load_config_silent : (path : String) → (load_config host path).effects ≡ []
  unfolding load_config parse_config
  load_config_silent path = ground arith

  open_event_log-Stays : (o : Option String) → Stays 2 3 (open_event_log host o)
  unfolding open_event_log
  open_event_log-Stays none = omega arith
  open_event_log-Stays (some path) = ground arith

  build_fs-Stays : (c : Config F) (sink : Option W) → Stays 3 4 (build_fs host c sink)
  unfolding build_fs new_namespace
  build_fs-Stays c sink = ground arith

  mount_fs-Stays :
      (c : Config F) (fs : FaultFs F H (Option W)) (mountpoint : String)
      → Stays 4 6 (mount_fs host c fs mountpoint)
  unfolding mount_fs
  mount_fs-Stays c fs mountpoint = ground arith

  flush_event_log-Stays :
      (o : Option String) (sink : Option W) → Stays 12 14 (flush_event_log host o sink)
  unfolding flush_event_log
  flush_event_log-Stays none sink = omega arith
  flush_event_log-Stays (some path) none = omega arith
  flush_event_log-Stays (some path) (some sink) = ground arith

  run_mounted-Stays :
      (c : Config F) (fs : FaultFs F H (Option W)) (mountpoint : String) (handle : MountHandle K)
      → Stays 6 14 (run_mounted host c fs mountpoint handle)
  unfolding run_mounted await_interrupt drop_on_error
  run_mounted-Stays c fs mountpoint handle =
      let log = flush_event_log-Stays c.metrics.jsonl_path (host.serve handle.session fs).events in
      ground arith

  mount_fs_then :
      (c : Config F) (mountpoint : String) (fs : FaultFs F H (Option W))
      → Stays 4 14 (mount_fs host c fs mountpoint >>= run_mounted host c fs mountpoint)
  mount_fs_then c mountpoint fs =
      Stays-bind 4 6 14 (mount_fs host c fs mountpoint) (run_mounted host c fs mountpoint)
        (omega arith) (mount_fs-Stays c fs mountpoint) (run_mounted-Stays c fs mountpoint)

  build_fs_then :
      (c : Config F) (mountpoint : String) (sink : Option W)
      → Stays 3 14 (
          build_fs host c sink >>= λ fs.
          mount_fs host c fs mountpoint >>= run_mounted host c fs mountpoint)
  build_fs_then c mountpoint sink =
      Stays-bind 3 4 14 (build_fs host c sink)
        (λ fs. mount_fs host c fs mountpoint >>= run_mounted host c fs mountpoint) (omega arith)
        (build_fs-Stays c sink) (mount_fs_then c mountpoint)

  open_event_log_then :
      (c : Config F) (mountpoint : String)
      → Stays 2 14 (
          open_event_log host c.metrics.jsonl_path >>= λ sink. build_fs host c sink >>= λ fs.
          mount_fs host c fs mountpoint >>= run_mounted host c fs mountpoint)
  open_event_log_then c mountpoint =
      Stays-bind 2 3 14 (open_event_log host c.metrics.jsonl_path)
        (λ sink. build_fs host c sink >>= λ fs.
          mount_fs host c fs mountpoint >>= run_mounted host c fs mountpoint)
        (omega arith) (open_event_log-Stays c.metrics.jsonl_path) (build_fs_then c mountpoint)

  launch-Stays : (c : Config F) (mountpoint : String) → Stays 0 14 (launch host c mountpoint)
  unfolding launch
  launch-Stays c mountpoint = (omega arith, (omega arith, open_event_log_then c mountpoint))

  load_config_then :
      (path mountpoint : String)
      → Stays 0 14 (load_config host path >>= λ c. launch host c mountpoint)
  load_config_then path mountpoint =
      Stays-bind 0 0 14 (load_config host path) (λ c. launch host c mountpoint) (omega arith)
        (subst (IsStaged 0 0) (sym (load_config_silent path)) (omega arith))
        (λ c. launch-Stays c mountpoint)

  mount_run-Stays : (path mountpoint : String) → Stays 0 14 (mount_run host path mountpoint)
  unfolding mount_run
  mount_run-Stays path mountpoint = let rest = load_config_then path mountpoint in ground arith

  run_command-Stays : (command : Command) → Stays 0 14 (run_command host command)
  unfolding run_command validate_run print_default_run default_config_toml
  run_command-Stays (Command.mount config mountpoint) = mount_run-Stays config mountpoint
  run_command-Stays (Command.validate_config config) =
      let quiet = load_config_silent config in ground arith
  run_command-Stays Command.print_default_config = ground arith

  terminate-Stays : (m : Ran (Unit {0})) → Stays 0 14 m → Stays 0 15 (terminate m)
  unfolding terminate
  terminate-Stays m h = elim (Result-cases m.result) [
    | inl (a, e) ↦ rw e (IsStaged-raise 0 14 15 m.effects (omega arith) h)
    | inr (x, e) ↦
        rw e (IsStaged-append 0 14 15 m.effects (reported x ∷ []) h (omega arith, omega arith))
  ]

  -- The effects of a command come in the order of the stages, each stage at most once: the event
  -- log is created before the mount, the summary is printed after the unmount, then the log is
  -- flushed, and an error is reported last.
  pub main-IsStaged : (command : Command) → IsStaged 0 15 (main host command).effects
  unfolding main
  main-IsStaged command = terminate-Stays (run_command host command) (run_command-Stays command)
