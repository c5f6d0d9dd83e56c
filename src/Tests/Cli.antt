-- ===== src/Tests/Cli.antt =====
-- Examples for the commands: a host whose one file holds the default configuration, and a session of
-- two reads; and a host without files.
use Prim.Native.String.{String}
use fusecraft_rs.Base.{
  ℕ, ◌≡◌, ◌⊎◌, ◌↔◌, refl, true, List, [], ◌∷◌, All, Option, none, some, ok, err,
}
use fusecraft_rs.Float.Fixed.{Fixed, fixed, fixed_rng, fixed-IsOrdered}
use fusecraft_rs.Config.{Config, default_config}
use fusecraft_rs.Config.Table.{read_config}
use fusecraft_rs.Config.Table.Write.{write_config}
use fusecraft_rs.Config.Table.Laws.{IsPlain, write_config-read_config}
use fusecraft_rs.Events.{Event, EventSink, jsonl_event_sink}
use fusecraft_rs.Engine.Session.{run_all}
use fusecraft_rs.Fuse.Options.{from_mount_config, to_fuser_config}
use fusecraft_rs.Cli.{
  Command, CliError, reported, Host, mounted, unmounted, config_ok, printed, dyn_event_sink,
}
use fusecraft_rs.Cli.Commands.{
  load_config, default_config_toml, mount_run, validate_run, print_default_run, main,
}
use fusecraft_rs.Cli.Stages.{IsStaged, main-IsStaged}
use fusecraft_rs.Cli.Pairing.{mounts, mount_run-IsPaired}
use fusecraft_rs.Cli.Loading.{
  IsConfigFile, validate_config-IsConfigFile, print_default_run-validate_run,
}
use fusecraft_rs.Tests.Samples.{linux, value_list, config}
use fusecraft_rs.Tests.Session.{two_calls}

-- The writer of the log is the list of its lines.
abbrev text_of : Event → Option String
text_of event = some "event"

abbrev write_line : List String → String → List String
write_line lines line = line ∷ lines

abbrev log_sink : EventSink (Option (List String))
log_sink = dyn_event_sink (jsonl_event_sink text_of write_line)

abbrev host : Host Fixed (List ℕ) (List String) ℕ
host = record {
  is_dir = λ path. true;
  read_to_string = λ path. some "text";
  parse_toml = λ text. some (write_config default_config);
  to_string_pretty = λ table. some "text";
  create_file = λ path. some [];
  to_json = text_of;
  writeln = write_line;
  flush_writer = λ w. true;
  spawn_mount2 = λ fs mountpoint options. ok 7;
  ctrlc_set_handler = true;
  serve = λ session fs. run_all ⦃sink = log_sink⦄ two_calls fs.engine;
  now = 0;
  now_secs = 5;
  uid = 1;
  gid = 2;
}

abbrev no_files : Host Fixed (List ℕ) (List String) ℕ
no_files = record host { read_to_string = λ path. none }

main-IsStaged_example : IsStaged 0 15 (main host (Command.mount "conf" "dir")).effects
main-IsStaged_example = main-IsStaged host (Command.mount "conf" "dir")

mount_run-IsPaired_example :
    (mounts (mount_run host "conf" "dir").effects ≡ [])
    ⊎ ((c : Config Fixed) × ((load_config host "conf").result ≡ ok c)
        × (mounts (mount_run host "conf" "dir").effects
            ≡ mounted "dir" (to_fuser_config (from_mount_config c.mount)) ∷ unmounted "dir" ∷ []))
mount_run-IsPaired_example = mount_run-IsPaired host "conf" "dir"

validate_config-IsConfigFile_example :
    (((main host (Command.validate_config "conf")).effects ≡ config_ok "conf" ∷ [])
      × ((main host (Command.validate_config "conf")).result ≡ ok tt)
      × ((c : Config Fixed) × IsConfigFile host "conf" c))
    ⊎ ((e : CliError) × ((main host (Command.validate_config "conf")).effects ≡ reported e ∷ [])
        × ((main host (Command.validate_config "conf")).result ≡ err e)
        × ((c : Config Fixed) → IsConfigFile host "conf" c → ⊥))
validate_config-IsConfigFile_example = validate_config-IsConfigFile host fixed-IsOrdered "conf"

default_printed : (print_default_run host).effects ≡ printed "text" ∷ []
unfolding print_default_run default_config_toml
default_printed = refl

print_default_run-validate_run_example :
    validate_run host "conf" ≡ record { effects = config_ok "conf" ∷ []; result = ok tt }
print_default_run-validate_run_example =
    print_default_run-validate_run host "conf" "text" (λ s h. refl) default_printed refl

write_config-read_config_example :
    (read_config (write_config config) ≡ ok config) ↔ All (λ e. IsPlain e.1) config.ops
write_config-read_config_example = write_config-read_config config
