-- ===== src/Cli/Report.antt =====
-- What a mount reports at its end about the calls that it has served.
use Prim.Native.String.{String}
use fusecraft_rs.Base.{◌≡◌, Bool, true, false, List, [], ◌∷◌, ◌++◌, keep, Option, ok}
use fusecraft_rs.Error.{Libc}
use fusecraft_rs.Float.{Float}
use fusecraft_rs.Config.{Config}
use fusecraft_rs.Events.{EventSink, jsonl_event_sink}
use fusecraft_rs.Metrics.{Histogram, print_summary}
use fusecraft_rs.Engine.{SimEngine}
use fusecraft_rs.Engine as Engine
use fusecraft_rs.Fuse.{FaultFs}
use fusecraft_rs.Cli.{Effect, Host, Ran, ◌>>=◌, dyn_event_sink, printed_summary}
use fusecraft_rs.Cli.Commands.{open_event_log, build_fs, mount_fs, run_mounted}

abbrev pub is_summary : Effect → Bool
is_summary (printed_summary _) = true
is_summary _ = false

-- The steps of a chain that succeeds.
record IsChain {A B : Type 0} (m : Ran A) (f : A → Ran B) (b : B) : Type 0 where
  given : A
  first : m.result ≡ ok given
  second : (f given).result ≡ ok b
  both : (m >>= f).effects ≡ m.effects ++ (f given).effects

module _ {F H W K : Type 0} ⦃fl : Float F⦄ ⦃libc : Libc⦄ ⦃histogram : Histogram H⦄
    (host : Host F H W K) where
  -- The sink that `mount` gives its engine.
  abbrev pub host_sink : EventSink (Option W)
  host_sink = dyn_event_sink (jsonl_event_sink host.to_json host.writeln)

  -- The part of `launch` from the event log on, when it succeeds: what the session leaves behind is
  -- summarized.
  record IsServed (c : Config F) (es : List Effect) : Type 0 where
    sink : Option W
    opened : (open_event_log host c.metrics.jsonl_path).result ≡ ok sink
    session : K
    fs : FaultFs F H (Option W)
    engine : fs.engine ≡ Engine.new c sink host.now
    summarized :
        keep is_summary es ≡ printed_summary (print_summary (host.serve session fs).metrics) ∷ []

  from_mount : Config F → String → FaultFs F H (Option W) → Ran (Unit {0})
  from_mount c mountpoint fs = mount_fs host c fs mountpoint >>= run_mounted host c fs mountpoint

  from_build : Config F → String → Option W → Ran (Unit {0})
  from_build c mountpoint sink = build_fs host c sink >>= from_mount c mountpoint

  from_log : Config F → String → Ran (Unit {0})
  from_log c mountpoint = open_event_log host c.metrics.jsonl_path >>= from_build c mountpoint
