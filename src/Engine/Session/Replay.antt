-- ===== src/Engine/Session/Replay.antt =====
-- The log of a session on a new engine without bandwidth limits, against the expected log.
use fusecraft_rs.Base.{
  ℕ, suc, ◌+◌, ◌<◌, ◌≡◌, refl, ap, sym, ◌∙◌, List, [], ◌∷◌, map, length, All, arith,
}
use fusecraft_rs.Base.Word.{u64_mod}
use fusecraft_rs.Op.{FsOp}
use fusecraft_rs.Error.{Libc}
use fusecraft_rs.Float.{Float, Rng}
use fusecraft_rs.Config.{Config}
use fusecraft_rs.Events.{Event, EventSink}
use fusecraft_rs.Metrics.{Histogram}
use fusecraft_rs.Engine.{SimEngine, new}
use fusecraft_rs.Engine.Lifecycle.{run_op}
use fusecraft_rs.Engine.Session.{Request, after, run_all}
use fusecraft_rs.Engine.Session.Log.{emit_all}
use fusecraft_rs.Engine.Session.Quiet.{IsTame, policy_of-IsTame, policy_of}
use fusecraft_rs.Engine.Session.Expected.{timeless, calls_of, expected_log}
use fusecraft_rs.Engine.Session.Served.{IsQuietEngine, new-IsQuietEngine, call-Served}

module _ {F H S W T : Type 0} ⦃fl : Float F⦄ ⦃rng : Rng F⦄ ⦃libc : Libc⦄ ⦃histogram : Histogram H⦄
    ⦃sink : EventSink S⦄ (c : Config F) (tame : (op : FsOp) → IsTame (policy_of c op)) where
  -- The log of calls on a quiet engine.
  run_all-expected :
      (rs : List (Request W T)) (e : SimEngine F H S)
      → IsQuietEngine c e
      → e.seq + length rs < u64_mod
      → (evs : List Event) × ((run_all rs e).events ≡ emit_all e.events evs)
        × (map timeless evs ≡ expected_log c e.seq (calls_of rs))
  unfolding run_all expected_log
  run_all-expected [] e quiet small = ([], refl, refl)
  run_all-expected (q ∷ rs) e quiet small =
      let s = call-Served c tame q e quiet in
      let e1 = after (run_op q.ctx q.clock q.body e q.world) in
      let (evs, logged, expected) = run_all-expected rs e1 s.quiet (omega (arith, s.next)) in
      let number : e1.seq ≡ suc e.seq = omega (arith, s.next) in
      (
        s.ev ∷ evs,
        logged ∙ ap (λ l. emit_all l evs) s.logged,
        rw (s.expected, expected, number) refl,
      )

module _ {F S W T : Type 0} (H : Type 0) ⦃fl : Float F⦄ ⦃rng : Rng F⦄ ⦃libc : Libc⦄
    ⦃histogram : Histogram H⦄ ⦃sink : EventSink S⦄ (c : Config F)
    (all_tame : All (λ entry. IsTame entry.1) c.ops) where
  -- On a new engine whose policies have a slot, no bandwidth limit and latency maxima that fit a
  -- `u64`, fewer than 2^64 calls one after the other emit the events that the configuration, the
  -- contexts and the answers of the closures determine, one for each call and in order, but for
  -- the wall-clock stamp and the measured duration of each.
  pub session-expected_log :
      (rs : List (Request W T)) (events : S) (now : ℕ)
      → length rs < u64_mod
      → (evs : List Event) × ((run_all rs (new {H = H} c events now)).events ≡ emit_all events evs)
        × (map timeless evs ≡ expected_log c 0 (calls_of rs))
  unfolding new
  session-expected_log rs events now small =
      run_all-expected c (policy_of-IsTame c.ops all_tame) rs (new {H = H} c events now)
        (new-IsQuietEngine H c events now (policy_of-IsTame c.ops all_tame)) (omega arith)

  -- Under one configuration, whose policies have a slot, no bandwidth limit and latency maxima
  -- that fit a `u64`, two sessions of fewer than 2^64 calls each, one after the other with the
  -- same contexts and the same answers of their closures, emit the same events but for the
  -- wall-clock stamps and the measured durations, whatever the clocks say and whatever world the
  -- closures run in.
  pub replay :
      (rs rs' : List (Request W T)) (events : S) (now now' : ℕ)
      → calls_of rs ≡ calls_of rs'
      → length rs < u64_mod
      → length rs' < u64_mod
      → (evs evs' : List Event) × ((run_all rs (new {H = H} c events now)).events
          ≡ emit_all events evs)
        × ((run_all rs' (new {H = H} c events now')).events ≡ emit_all events evs')
        × (map timeless evs ≡ map timeless evs')
  replay rs rs' events now now' same small small' =
      let (evs, logged, expected) = session-expected_log rs events now small in
      let (evs', logged', expected') = session-expected_log rs' events now' small' in
      (evs, evs', logged, logged', expected ∙ ap (expected_log c 0) same ∙ sym expected')
