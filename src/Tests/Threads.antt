-- ===== src/Tests/Threads.antt =====
-- Two writes whose steps interleave: the second queues behind the first, is woken when the first drops
-- its guard, and takes the slot.
use fusecraft_rs.Base.{ℕ, ◌≡◌, refl, true, List, [], ◌∷◌, Option, some, Result, arith}
use fusecraft_rs.Base.Word.{checked_add, from_micros, as_micros}
use fusecraft_rs.Op as Op
use fusecraft_rs.Op.{all}
use fusecraft_rs.Error.{FsError}
use fusecraft_rs.Float.Fixed.{Fixed, fixed, fixed_rng}
use fusecraft_rs.Config.{get_policy}
use fusecraft_rs.Sampler.Latency.{sample_latency_us}
use fusecraft_rs.Limiter.Bandwidth as Bandwidth
use fusecraft_rs.Limiter.Bandwidth.{reserve}
use fusecraft_rs.Limiter.Concurrency as Concurrency
use fusecraft_rs.Limiter.Concurrency.{LimiterState, admitted, queues, enter, take_slot, release}
use fusecraft_rs.Events.{Event}
use fusecraft_rs.Engine.{
  OpContext, OpResources, Clock, get_resources, is_large, put_bandwidth, select_tier, new,
  new_resources,
}
use fusecraft_rs.Engine.Resources.{get_resources-new}
use fusecraft_rs.Engine.Lifecycle.{bandwidth_step, event_of, classify, execute}
use fusecraft_rs.Engine.Slot.{fault_of, latency_of, delay_of}
use fusecraft_rs.Engine.Threads.{
  Job, Call, numbered, asleep, woken, slotted, closing, finished, Shared, System, Reach,
  set_resources, set_state, set_charged, charged, sampled, CallMove, takes_number, inner, emits,
  records, is_admitted, queues_up, takes_slot, delays, executes, own, drops, drops_and_wakes,
  closes, begin, next, fetch_add, emit_event, record_event,
}
use fusecraft_rs.Engine.Threads.Table.{get-put_same, holding_state, dropped_state}
use fusecraft_rs.Tests.Samples.{linux, value_list, event_list, config}
use fusecraft_rs.Tests.Engine.{idle, clock}
use fusecraft_rs.Tests.Session.{counting, later, no_events}

abbrev pub Values : Type 0
Values = Shared Fixed (List ℕ) (List Event) ℕ

abbrev pub Calls : Type 0
Calls = System Fixed (List ℕ) (List Event) ℕ ℕ

abbrev pub write_four : OpContext
write_four = record { op = Op.write; ino = 100; offset = 0; len = 4; requested_len = 4 }

abbrev pub job : Job ℕ ℕ
job = record { ctx = write_four; body = counting }

abbrev pub jobs : List (Job ℕ ℕ)
jobs = job ∷ job ∷ []

abbrev pub at : Values → Call ℕ ℕ → Call ℕ ℕ → Calls
at shared first second = record { shared = shared; calls = first ∷ second ∷ [] }

abbrev pub IsReached : Calls → Type 0
IsReached = Reach config no_events 0 0 jobs

-- A step of the first call, and one of the second.
first :
    {a b : Values} {p q other : Call ℕ ℕ}
    → IsReached (at a p other)
    → CallMove a p b q
    → IsReached (at b q other)
first {p} {q} {other} reached move = next reached (own [] (other ∷ []) p q refl move refl)

second :
    {a b : Values} {p q other : Call ℕ ℕ}
    → IsReached (at a other p)
    → CallMove a p b q
    → IsReached (at b other q)
second {p} {q} {other} reached move = next reached (own (other ∷ []) [] p q refl move refl)

abbrev pub Found : OpResources Fixed → Values → Type 0
Found r a = get_resources Op.write a.engine.resources ≡ some r

-- Both have their numbers.
abbrev pub a0 : Values
a0 = record { engine = new config no_events 0; world = 0; log = []; recorded = [] }

abbrev pub a2 : Values
a2 = fetch_add (fetch_add a0)

abbrev pub r0 : OpResources Fixed
r0 = new_resources config 0 Op.write

r0-Found : Found r0 a2
unfolding fetch_add
r0-Found = get_resources-new (List ℕ) config no_events 0 Op.write

a2-IsReached : IsReached (at a2 (numbered job 0) (numbered job 1))
unfolding fetch_add new
a2-IsReached = second (first (begin refl) (takes_number job)) (takes_number job)

-- The first has the slot, and the second queues.
abbrev pub one_in : LimiterState
one_in = record idle { inflight = 1; total_acquired = 1 }

abbrev pub one_queued : LimiterState
one_queued = record one_in { queued = 1 }

abbrev pub a3 : Values
a3 = set_state Op.write r0 one_in a2

abbrev pub a4 : Values
a4 = set_state Op.write (holding_state one_in r0) one_queued a3

abbrev pub r1 : OpResources Fixed
r1 = holding_state one_queued (holding_state one_in r0)

r1-Found : Found r1 a4
r1-Found =
    get-put_same Op.write (holding_state one_in r0)
      (holding_state one_queued (holding_state one_in r0)) a3.engine.resources
      (get-put_same Op.write r0 (holding_state one_in r0) a2.engine.resources r0-Found)

pub a4-IsReached : IsReached (at a4 (slotted job 0 0) (asleep job 1))
unfolding enter new_resources Concurrency.new get_policy Op.op_eq
a4-IsReached = second (first a2-IsReached (inner (is_admitted job 0 r0 one_in r0-Found refl))) (
    inner (
      queues_up job 1 (holding_state one_in r0) one_queued
        (get-put_same Op.write r0 (holding_state one_in r0) a2.engine.resources r0-Found) refl))

-- A call that has its slot, up to the drop of its guard.
module _ (a : Values) (r : OpResources Fixed) (seq wait : ℕ) (t : Clock) where
  abbrev pub fault : Option ℕ
  fault = fault_of (sampled a seq) write_four r

  abbrev pub latency : ℕ
  latency = latency_of (sampled a seq) write_four r

  abbrev pub delay : ℕ
  delay = delay_of write_four t r

  abbrev pub result : Result FsError ℕ
  result = (execute fault counting a.world).0

  abbrev pub event : Event
  event =
      event_of write_four seq (classify result).0 (classify result).1 (as_micros wait) latency
        (as_micros delay) t

  abbrev pub served : Values
  served = record_event event (
      emit_event event (
        set_resources (set_charged write_four t r a) (set_charged write_four t r a).engine.resources
          (execute fault counting a.world).1))

  serves :
      (R : Values → Call ℕ ℕ → Type 0)
      → ((b c : Values) (p q : Call ℕ ℕ) → R b p → CallMove b p c q → R c q)
      → (n : ℕ) → Found r a
      → checked_add (from_micros latency) delay ≡ some n
      → R a (slotted job seq wait)
      → R served (closing Op.write result)
  unfolding event_of
  serves R then n found fits reached =
      then _ _ _ _
        (then _ _ _ _
          (then _ _ _ _ (then _ _ _ _ reached (inner (delays job seq wait n r t found fits)))
            (inner (executes job seq fault wait latency delay t)))
          (emits true result event))
        (records true result event)

  served-Found : Found r a → Found (charged write_four t r) served
  unfolding emit_event record_event
  served-Found found = get-put_same Op.write r (charged write_four t r) a.engine.resources found

-- The first returns and wakes the second, which takes the slot and returns.
abbrev pub a8 : Values
a8 = served a4 r1 0 0 clock

abbrev pub r2 : OpResources Fixed
r2 = charged write_four clock r1

abbrev pub a9 : Values
a9 = set_state Op.write r2 (release r2.limiter.state) a8

abbrev pub r3 : OpResources Fixed
r3 = dropped_state r2

r3-Found : Found r3 a9
r3-Found = get-put_same Op.write r2 r3 a8.engine.resources (served-Found a4 r1 0 0 clock r1-Found)

abbrev pub r4 : OpResources Fixed
r4 = holding_state (take_slot 5 r3.limiter.state) r3

abbrev pub a10 : Values
a10 = set_state Op.write r3 (take_slot 5 r3.limiter.state) a9

r4-Found : Found r4 a10
r4-Found = get-put_same Op.write r3 r4 a9.engine.resources r3-Found

abbrev pub a14 : Values
a14 = served a10 r4 1 5 later

abbrev pub r5 : OpResources Fixed
r5 = charged write_four later r4

abbrev pub a15 : Values
a15 = set_state Op.write r5 (release r5.limiter.state) a14

abbrev pub result_1 : Call ℕ ℕ
result_1 = finished (result a4 r1 0 0 clock)

abbrev pub result_2 : Call ℕ ℕ
result_2 = finished (result a10 r4 1 5 later)

first_closing : IsReached (at a8 (closing Op.write (result a4 r1 0 0 clock)) (asleep job 1))
unfolding latency_of sample_latency_us fixed select_tier Op.is_data new_resources get_policy
    Op.op_eq delay_of bandwidth_step reserve Bandwidth.new
first_closing =
    serves a4 r1 0 0 clock (λ a p. IsReached (at a p (asleep job 1))) (λ b c p q. first) _ r1-Found
      refl a4-IsReached

first_over : IsReached (at a9 result_1 (woken job 1))
first_over = next first_closing (
    drops_and_wakes [] (asleep job 1 ∷ []) (result_1 ∷ []) []
      (closing Op.write (result a4 r1 0 0 clock)) result_1 Op.write r2 job 1 refl
      (closes (result a4 r1 0 0 clock)) refl refl (served-Found a4 r1 0 0 clock r1-Found) refl refl)

second_in : IsReached (at a10 result_1 (slotted job 1 5))
unfolding release put_bandwidth is_large Op.is_data new_resources get_policy Op.op_eq
    Concurrency.new
second_in = second first_over (inner (takes_slot job 1 5 r3 r3-Found (omega arith)))

pub both_done : IsReached (at a15 result_1 result_2)
unfolding latency_of sample_latency_us fixed select_tier Op.is_data put_bandwidth is_large
    new_resources get_policy Op.op_eq delay_of bandwidth_step reserve Bandwidth.new
both_done =
    next
      (serves a10 r4 1 5 later (λ a p. IsReached (at a result_1 p)) (λ b c p q. second) _ r4-Found
        refl second_in)
      (drops (result_1 ∷ []) [] (closing Op.write (result a10 r4 1 5 later)) result_2 Op.write r5
        refl (closes (result a10 r4 1 5 later)) refl (served-Found a10 r4 1 5 later r4-Found) refl
        refl)
