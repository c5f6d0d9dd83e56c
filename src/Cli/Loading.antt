-- ===== src/Cli/Loading.antt =====
-- When a configuration file is accepted, and what happens when it is not.
use Prim.Native.String.{String}
use fusecraft_rs.Base.{
  ◌≡◌, ◌≢◌, ◌↔◌, refl, false, [], ◌∷◌, some, Option-cases, Bool-cases, ok, err, ◌⊎◌, inl, inr,
  Result-cases, arith,
}
use fusecraft_rs.Error.{Libc}
use fusecraft_rs.Float.{Float, IsOrdered}
use fusecraft_rs.Config.{Config, default_config, default_files}
use fusecraft_rs.Config.Validate.{validate, validate_ops}
use fusecraft_rs.Config.Valid.{IsValid, validate-IsValid}
use fusecraft_rs.Config.Table.{ConfigTable, read_config}
use fusecraft_rs.Config.Table.Write.{write_config}
use fusecraft_rs.Config.Table.Laws.{write_config-read_config}
use fusecraft_rs.Metrics.{Histogram}
use fusecraft_rs.Cli.{Host, Command, CliError, config_ok, printed, reported, terminate}
use fusecraft_rs.Cli.Commands.{
  parse_config, load_config, default_config_toml, mount_run, validate_run, print_default_run,
  run_command, main,
}
use fusecraft_rs.Cli.Stages.{load_config_silent}

module _ {F H W K : Type 0} ⦃fl : Float F⦄ ⦃libc : Libc⦄ ⦃histogram : Histogram H⦄
    (host : Host F H W K) where
  -- The file at `path` can be read, is TOML, and its table reads as the valid configuration `c`.
  pub record IsConfigFile (path : String) (c : Config F) : Type 0 where
    pub text : String
    pub table : ConfigTable F
    pub was_read : host.read_to_string path ≡ some text
    pub parses : host.parse_toml text ≡ some table
    pub decodes : read_config table ≡ ok c
    pub valid : IsValid c

  module _ (law : IsOrdered fl) where
    load_config-IsConfigFile :
        (path : String) (c : Config F) → IsConfigFile path c → (load_config host path).result ≡ ok c
    unfolding load_config parse_config
    load_config-IsConfigFile path c file =
        let a = file.was_read in
        let b = file.parses in
        let d = file.decodes in let v = (validate-IsValid law c).1 file.valid in rw (a, b, d, v)

    decoded :
        (path text : String) (table : ConfigTable F) (c : Config F)
        → host.read_to_string path ≡ some text
        → host.parse_toml text ≡ some table
        → (load_config host path).result ≡ ok c
        → (read_config table ≡ ok c) × (validate c ≡ ok tt)
    unfolding load_config parse_config
    decoded path text table c a b h = ground arith

    IsConfigFile-load_config :
        (path : String) (c : Config F) → (load_config host path).result ≡ ok c → IsConfigFile path c
    unfolding load_config parse_config
    IsConfigFile-load_config path c h = elim (Option-cases (host.read_to_string path)) [
      | inl a ↦ ground arith
      | inr (text, a) ↦ elim (Option-cases (host.parse_toml text)) [
        | inl b ↦ ground arith
        | inr (table, b) ↦
            let d = decoded path text table c a b h in
            record {
              text = text;
              table = table;
              was_read = a;
              parses = b;
              decodes = d.0;
              valid = (validate-IsValid law c).0 d.1;
            }
      ]
    ]

    -- A file is loaded exactly when it holds a valid configuration, provided that comparisons of
    -- finite numbers are total.
    pub load_config_iff :
        (path : String) (c : Config F)
        → ((load_config host path).result ≡ ok c) ↔ IsConfigFile path c
    load_config_iff path c = (IsConfigFile-load_config path c, load_config-IsConfigFile path c)

    -- The command `validate-config` prints its one line and succeeds if the file can be read,
    -- is TOML and holds a valid configuration; otherwise it fails, and all that is printed is
    -- its error. Comparisons of finite numbers are assumed total.
    pub validate_config-IsConfigFile :
        (path : String)
        → (((main host (Command.validate_config path)).effects ≡ config_ok path ∷ [])
            × ((main host (Command.validate_config path)).result ≡ ok tt)
            × ((c : Config F) × IsConfigFile path c))
          ⊎ ((e : CliError) × ((main host (Command.validate_config path)).effects ≡ reported e ∷ [])
              × ((main host (Command.validate_config path)).result ≡ err e)
              × ((c : Config F) → IsConfigFile path c → ⊥))
    unfolding main run_command terminate validate_run
    validate_config-IsConfigFile path =
        let quiet = load_config_silent host path in
        elim (Result-cases (load_config host path).result) [
          | inl (c, h) ↦
              inl (rw (quiet, h) refl, rw (quiet, h) refl, (c, IsConfigFile-load_config path c h))
          | inr (e, h) ↦ inr (
            e,
            rw (quiet, h) refl,
            rw (quiet, h) refl,
            λ c file. let k = load_config-IsConfigFile path c file in cc,
          )
        ]

    -- `mount` has no effect at all, and fails, unless the mountpoint is a directory and the
    -- file holds a valid configuration. Comparisons of finite numbers are assumed total.
    pub mount_run_rejects :
        (path mountpoint : String)
        → ((c : Config F) → IsConfigFile path c → host.is_dir mountpoint ≡ false)
        → ((mount_run host path mountpoint).effects ≡ [])
          × ((mount_run host path mountpoint).result ≢ ok tt)
    unfolding mount_run
    mount_run_rejects path mountpoint bad =
        let quiet = load_config_silent host path in
        elim (Bool-cases (host.is_dir mountpoint)) [
          | inr no_dir ↦ (rw no_dir refl, rw no_dir (λ k. cc))
          | inl dir ↦ elim (Result-cases (load_config host path).result) [
            | inl (c, h) ↦ let k = bad c (IsConfigFile-load_config path c h) in ground arith
            | inr (e, h) ↦ (rw (dir, quiet, h) refl, rw (dir, quiet, h) (λ k. cc))
          ]
        ]

  default_config-valid : validate (default_config {F = F}) ≡ ok tt
  unfolding validate validate_ops default_config default_files
  default_config-valid = refl

  -- What `print-default-config` prints is accepted by `validate-config`, from any file that it is
  -- saved to, provided that the toml crate reads back the default table that it prints.
  pub print_default_run-validate_run :
      (path text : String)
      → ((s : String)
          → host.to_string_pretty (write_config default_config) ≡ some s
          → host.parse_toml s ≡ some (write_config default_config))
      → (print_default_run host).effects ≡ printed text ∷ []
      → host.read_to_string path ≡ some text
      → validate_run host path ≡ record { effects = config_ok path ∷ []; result = ok tt }
  unfolding print_default_run default_config_toml validate_run load_config parse_config
      default_config
  print_default_run-validate_run path text toml output saved =
      let table = write_config (default_config {F = F}) in
      let printed_text : host.to_string_pretty table ≡ some text = ground arith in
      let parsed = toml text printed_text in
      let again : read_config table ≡ ok default_config =
        (write_config-read_config default_config).1 tt in
      rw (saved, parsed, again, default_config-valid) refl
