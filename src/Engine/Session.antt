-- ===== src/Engine/Session.antt =====
-- Calls one after the other on one engine, and what the log of such a session depends on.
pub mod Log
pub mod Quiet
pub mod Expected
pub mod Served
pub mod Replay
use fusecraft_rs.Base.{ℕ, ◌+◌, ◌≡◌, List, [], ◌∷◌, Option, none, some, Result}
use fusecraft_rs.Error.{Libc, FsError}
use fusecraft_rs.Float.{Float, Rng}
use fusecraft_rs.Events.{Event, EventSink}
use fusecraft_rs.Metrics.{Histogram}
use fusecraft_rs.Engine.{OpContext, SimEngine, Clock, Run, returned, panicked, blocked}
use fusecraft_rs.Engine.Lifecycle.{run_op}

-- A call: what the handler passes to `run_op`, the clocks that it reads, and the world that its
-- closure runs in.
pub record Request (W T : Type 0) : Type 0 where
  pub ctx : OpContext
  pub clock : Clock
  pub body : W → Result FsError T × W
  pub world : W

-- What the closure returns, if it runs.
abbrev pub answer_of : {W T : Type 0} → Request W T → Result FsError T
answer_of r = (r.body r.world).0

-- The engine that a call leaves behind, however it ends.
unfoldable pub after : {F H S W T : Type 0} → Run F H S W T → SimEngine F H S
after (returned result e w) = e
after (panicked e w) = e
after (blocked e) = e

module _ {F H S W T : Type 0} ⦃fl : Float F⦄ ⦃rng : Rng F⦄ ⦃libc : Libc⦄ ⦃histogram : Histogram H⦄
    ⦃sink : EventSink S⦄ where
  unfoldable pub run_all : List (Request W T) → SimEngine F H S → SimEngine F H S
  unfolding after
  run_all [] e = e
  run_all (r ∷ rs) e = run_all rs (after (run_op r.ctx r.clock r.body e r.world))
