-- ===== src/Cli/Pairing.antt =====
-- A mount is followed by its unmount, however the command ends.
use Prim.Native.String.{String}
use fusecraft_rs.Base.{
  ◌≡◌, ◌⊎◌, inl, inr, ◌∙◌, refl, sym, subst, Bool, true, false, Bool-cases, List, [], ◌∷◌, Option,
  none, some, Result, ok, err, keep, keep-append, arith,
}
use fusecraft_rs.Error.{Libc}
use fusecraft_rs.Float.{Float}
use fusecraft_rs.Config.{Config}
use fusecraft_rs.Metrics.{Histogram}
use fusecraft_rs.Fuse.{FaultFs}
use fusecraft_rs.Fuse.Mount.{MountHandle}
use fusecraft_rs.Fuse.Options.{FuserConfig, from_mount_config, to_fuser_config}
use fusecraft_rs.Cli.{
  CliError, Effect, Host, Ran, ◌>>=◌, drop_on_error, continue_with, mounted, unmounted,
}
use fusecraft_rs.Cli.Commands.{
  load_config, new_namespace, open_event_log, flush_event_log, await_interrupt, build_fs, mount_fs,
  run_mounted, launch, mount_run,
}
use fusecraft_rs.Cli.Stages.{load_config_silent}

-- The mounts and unmounts.
abbrev pub is_mount : Effect → Bool
is_mount (mounted _ _) = true
is_mount (unmounted _) = true
is_mount _ = false

abbrev pub mounts : List Effect → List Effect
mounts = keep is_mount

-- One mount with these options, then its unmount; or neither.
abbrev pub IsPaired : String → FuserConfig → List Effect → Type 0
IsPaired mountpoint options es =
    (mounts es ≡ []) ⊎ (mounts es ≡ mounted mountpoint options ∷ unmounted mountpoint ∷ [])

quiet-bind :
    {A : Type 0} (mountpoint : String) (options : FuserConfig) (es : List Effect)
    (r : Result CliError A) (f : A → Ran (Unit {0}))
    → mounts es ≡ []
    → ((a : A) → IsPaired mountpoint options (f a).effects)
    → IsPaired mountpoint options (continue_with es r f).effects
quiet-bind mountpoint options es (ok a) f h paired =
    subst (λ l. (l ≡ []) ⊎ (l ≡ mounted mountpoint options ∷ unmounted mountpoint ∷ []))
      (sym (keep-append is_mount es (f a).effects ∙ rw h)) (paired a)
quiet-bind mountpoint options es (err e) f h paired = inl h

-- A step that mounts exactly if it succeeds.
IsPaired-bind :
    {A : Type 0} (mountpoint : String) (options : FuserConfig) (es : List Effect)
    (r : Result CliError A) (f : A → Ran (Unit {0}))
    → ((a : A) → r ≡ ok a → mounts es ≡ mounted mountpoint options ∷ [])
    → ((e : CliError) → r ≡ err e → mounts es ≡ [])
    → ((handle : A) → mounts (f handle).effects ≡ unmounted mountpoint ∷ [])
    → IsPaired mountpoint options (continue_with es r f).effects
IsPaired-bind mountpoint options es (ok a) f done failed rest =
    inr (keep-append is_mount es (f a).effects ∙ rw (done a refl, rest a))
IsPaired-bind mountpoint options es (err e) f done failed rest = inl (failed e refl)

module _ {F H W K : Type 0} ⦃fl : Float F⦄ ⦃libc : Libc⦄ ⦃histogram : Histogram H⦄
    (host : Host F H W K) where
  open_event_log_quiet : (o : Option String) → mounts (open_event_log host o).effects ≡ []
  unfolding open_event_log
  open_event_log_quiet none = refl
  open_event_log_quiet (some path) = ground arith

  build_fs_quiet : (c : Config F) (sink : Option W) → mounts (build_fs host c sink).effects ≡ []
  unfolding build_fs new_namespace
  build_fs_quiet c sink = ground arith

  flush_event_log_quiet :
      (o : Option String) (sink : Option W) → mounts (flush_event_log host o sink).effects ≡ []
  unfolding flush_event_log
  flush_event_log_quiet none sink = refl
  flush_event_log_quiet (some path) none = refl
  flush_event_log_quiet (some path) (some sink) = ground arith

  run_mounted_unmounts :
      (c : Config F) (fs : FaultFs F H (Option W)) (mountpoint : String) (handle : MountHandle K)
      → mounts (run_mounted host c fs mountpoint handle).effects ≡ unmounted mountpoint ∷ []
  unfolding run_mounted await_interrupt drop_on_error
  run_mounted_unmounts c fs mountpoint handle =
      let log = flush_event_log_quiet c.metrics.jsonl_path (host.serve handle.session fs).events in
      ground arith

  abbrev options_of : Config F → FuserConfig
  options_of c = to_fuser_config (from_mount_config c.mount)

  mounts-mount_fs :
      (c : Config F) (fs : FaultFs F H (Option W)) (mountpoint : String) (handle : MountHandle K)
      → (mount_fs host c fs mountpoint).result ≡ ok handle
      → mounts (mount_fs host c fs mountpoint).effects ≡ mounted mountpoint (options_of c) ∷ []
  unfolding mount_fs
  mounts-mount_fs c fs mountpoint handle h = ground arith

  mount_fs_fails :
      (c : Config F) (fs : FaultFs F H (Option W)) (mountpoint : String) (e : CliError)
      → (mount_fs host c fs mountpoint).result ≡ err e
      → mounts (mount_fs host c fs mountpoint).effects ≡ []
  unfolding mount_fs
  mount_fs_fails c fs mountpoint e h = ground arith

  mount_fs_then :
      (c : Config F) (mountpoint : String) (fs : FaultFs F H (Option W))
      → IsPaired mountpoint
          (options_of c)
          (mount_fs host c fs mountpoint >>= run_mounted host c fs mountpoint).effects
  mount_fs_then c mountpoint fs =
      let m = mount_fs host c fs mountpoint in
      IsPaired-bind mountpoint (options_of c) m.effects m.result (run_mounted host c fs mountpoint)
        (mounts-mount_fs c fs mountpoint) (mount_fs_fails c fs mountpoint)
        (run_mounted_unmounts c fs mountpoint)

  launch-IsPaired :
      (c : Config F) (mountpoint : String)
      → IsPaired mountpoint (options_of c) (launch host c mountpoint).effects
  unfolding launch
  launch-IsPaired c mountpoint =
      let log = open_event_log host c.metrics.jsonl_path in
      quiet-bind mountpoint (options_of c) log.effects log.result
        (λ sink. build_fs host c sink >>= λ fs.
          mount_fs host c fs mountpoint >>= run_mounted host c fs mountpoint)
        (open_event_log_quiet c.metrics.jsonl_path)
        (λ sink.
          quiet-bind mountpoint (options_of c) (build_fs host c sink).effects
            (build_fs host c sink).result
            (λ fs. mount_fs host c fs mountpoint >>= run_mounted host c fs mountpoint)
            (build_fs_quiet c sink) (mount_fs_then c mountpoint))

  launch-Loaded :
      (mountpoint : String) (c : Config F)
      → let es = (launch host c mountpoint).effects in
        (mounts es ≡ [])
        ⊎ ((d : Config F) × (◌≡◌ {A = Result CliError (Config F)} (ok c) (ok d))
            × (mounts es ≡ mounted mountpoint (options_of d) ∷ unmounted mountpoint ∷ []))
  launch-Loaded mountpoint c = elim (launch-IsPaired c mountpoint) [
    | inl h ↦ inl h
    | inr h ↦ inr (c, refl, h)
  ]

  loaded-IsPaired :
      (mountpoint : String) (es : List Effect) (r : Result CliError (Config F))
      → es ≡ []
      → let m = continue_with es r (λ c. launch host c mountpoint) in
        (mounts m.effects ≡ [])
        ⊎ ((c : Config F) × (r ≡ ok c)
            × (mounts m.effects ≡ mounted mountpoint (options_of c) ∷ unmounted mountpoint ∷ []))
  loaded-IsPaired mountpoint es (err e) silent = inl (rw silent)
  loaded-IsPaired mountpoint es (ok c) silent = rw silent (launch-Loaded mountpoint c)

  -- A run of `mount` either mounts nothing, or mounts once, at the mountpoint that it was given
  -- and with the options of the configuration that it loaded, and unmounts that once afterwards,
  -- also when the Ctrl-C handler cannot be set.
  pub mount_run-IsPaired :
      (path mountpoint : String)
      → (mounts (mount_run host path mountpoint).effects ≡ [])
        ⊎ ((c : Config F) × ((load_config host path).result ≡ ok c)
            × (mounts (mount_run host path mountpoint).effects
                ≡ mounted mountpoint (to_fuser_config (from_mount_config c.mount))
                  ∷ unmounted mountpoint
                  ∷ []))
  unfolding mount_run
  mount_run-IsPaired path mountpoint = elim (Bool-cases (host.is_dir mountpoint)) [
    | inl dir ↦ rw dir (
        loaded-IsPaired mountpoint (load_config host path).effects (load_config host path).result
          (load_config_silent host path))
    | inr no_dir ↦ inl (rw no_dir)
  ]
