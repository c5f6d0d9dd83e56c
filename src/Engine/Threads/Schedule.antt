-- ===== src/Engine/Threads/Schedule.antt =====
-- Schedules: the steps that a scheduler picks, at the readings of the clocks that it is given.
use fusecraft_rs.Base.{ℕ, ◌≡◌, Bool, true, false}
use fusecraft_rs.Error.{Libc}
use fusecraft_rs.Float.{Float, Rng}
use fusecraft_rs.Events.{EventSink}
use fusecraft_rs.Metrics.{Histogram}
use fusecraft_rs.Engine.{Clock}
use fusecraft_rs.Engine.Threads.{
  System, Inner, CallStep, own, drops, drops_and_wakes, is_unregistered, stirs, takes_slot,
  sleeps_on, Call, asleep, Shared, CallMove, takes_number, inner, emits, records, is_admitted,
  is_rejected, queues_up, overflows, delays, executes,
}

abbrev pub is_asleep : {W T : Type 0} → Call W T → Bool
is_asleep (asleep _ _) = true
is_asleep _ = false

-- What a call reads of the clocks at a step, and for how long it has queued by then.
abbrev pub Readings : Type 0
Readings = Clock × ℕ

module _ {F H S W T : Type 0} ⦃fl : Float F⦄ ⦃rng : Rng F⦄ ⦃libc : Libc⦄ ⦃histogram : Histogram H⦄
    ⦃sink : EventSink S⦄ where
  -- A step of a call takes these readings.
  abbrev pub IsInnerTimed :
      {a b : Shared F H S W} {p q : Call W T} → Readings → Inner a p b q → Type 0
  IsInnerTimed (t, wait) (is_unregistered _ _ _) = Unit
  IsInnerTimed (t, wait) (is_admitted _ _ _ _ _ _) = Unit
  IsInnerTimed (t, wait) (is_rejected _ _ _ _ u _ _) = u ≡ t
  IsInnerTimed (t, wait) (queues_up _ _ _ _ _ _) = Unit
  IsInnerTimed (t, wait) (stirs _ _) = Unit
  IsInnerTimed (t, wait) (takes_slot _ _ waited _ _ _) = waited ≡ wait
  IsInnerTimed (t, wait) (sleeps_on _ _ _ _ _) = Unit
  IsInnerTimed (t, wait) (overflows _ _ _ _ u _ _) = u ≡ t
  IsInnerTimed (t, wait) (delays _ _ _ _ _ u _ _) = u ≡ t
  IsInnerTimed (t, wait) (executes _ _ _ _ _ _ u) = u ≡ t

  abbrev pub IsMoveTimed :
      {a b : Shared F H S W} {p q : Call W T} → Readings → CallMove a p b q → Type 0
  IsMoveTimed t (takes_number _) = Unit
  IsMoveTimed t (inner move) = IsInnerTimed t move
  IsMoveTimed t (emits _ _ _) = Unit
  IsMoveTimed t (records _ _ _) = Unit

  -- What the clocks give each call in each state is what the step takes.
  abbrev pub IsTimed :
      {a b : System F H S W T} → (System F H S W T → Call W T → Readings) → CallStep a b → Type 0
  IsTimed {a} clocks (own l r p q _ move _) = IsMoveTimed (clocks a p) move
  IsTimed clocks (drops _ _ _ _ _ _ _ _ _ _ _ _) = Unit
  IsTimed clocks (drops_and_wakes _ _ _ _ _ _ _ _ _ _ _ _ _ _ _ _ _) = Unit

  -- No call wakes by itself.
  abbrev pub IsPrompted : {a b : System F H S W T} → CallStep a b → Type 0
  IsPrompted (own l r p q _ _ _) = is_asleep p ≡ false
  IsPrompted (drops _ _ _ _ _ _ _ _ _ _ _ _) = Unit
  IsPrompted (drops_and_wakes _ _ _ _ _ _ _ _ _ _ _ _ _ _ _ _ _) = Unit

  pub data Schedule (clocks : System F H S W T → Call W T → Readings)
      : System F H S W T → System F H S W T → Type 0 where
    done : {a : System F H S W T} → Schedule clocks a a
    and_then :
        {a b c : System F H S W T} (s : CallStep a b)
        → IsPrompted s
        → IsTimed clocks s
        → Schedule clocks b c
        → Schedule clocks a c
