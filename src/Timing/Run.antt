-- ===== src/Timing/Run.antt =====
-- The life of a timing event: src/timing_event.h and src/timing_event.cpp. Each of these methods
-- touches its own event only. An answer `some c` says that the event is handed to the queue of the
-- contention simulator for cycle `c`.
use cache_sim.Base.{
  ◌==◌, if◌then◌else◌, decrement, leb, ◌>>◌, done, assert, Outcome, ℕ, ◌+◌, ◌%◌, ◌^◌, max, Bool,
  true, false, not, ◌&&◌, ◌||◌, Option, none, some,
}
use cache_sim.Timing.{
  ev_held, ev_done, EventState, TimingEvent, ev_queued, is_none, is_queued, ev_running,
}

abbrev pub is_running : EventState → Bool
is_running ev_running = true
is_running _ = false

abbrev pub is_held : EventState → Bool
is_held ev_held = true
is_held _ = false

-- `TimingEvent::parentDone`
unfoldable pub parent_done : TimingEvent → ℕ → Outcome (TimingEvent × Option ℕ)
parent_done ev start_cycle =
    let cycle = max ev.cycle start_cycle in
    let parents = decrement ev.num_parents in
    let heard = record ev { cycle = cycle; num_parents = parents } in
    assert (not (ev.num_parents == 0))
    >> (if parents == 0
        then (assert (is_none ev.state)
            >> done (record heard { state = ev_queued }, some ((cycle + ev.pre_delay) % 2 ^ 64)))
        else done (heard, none))

-- `DelayEvent::parentDone`: when the last parent is done, the event runs at once, and the answer is the
-- cycle for `done`.
unfoldable pub delay_parent_done : TimingEvent → ℕ → TimingEvent × Option ℕ
delay_parent_done ev start_cycle =
    let cycle = max ev.cycle start_cycle in
    let parents = decrement ev.num_parents in
    let heard = record ev { cycle = cycle; num_parents = parents } in
    if parents == 0
    then (record heard { state = ev_running }, some ((cycle + ev.pre_delay) % 2 ^ 64))
    else (heard, none)

unfoldable pub queue : TimingEvent → ℕ → Outcome (TimingEvent × Option ℕ)
queue ev cycle =
    assert (is_none ev.state && (ev.num_parents == 0))
    >> done (record ev { state = ev_queued }, some cycle)

unfoldable pub requeue : TimingEvent → ℕ → Outcome (TimingEvent × Option ℕ)
requeue ev cycle =
    assert (ev.num_parents == 0)
    >> (assert (is_running ev.state || is_held ev.state)
        >> done (record ev { state = ev_queued }, some cycle))

-- `run`, up to the virtual `simulate`.
unfoldable pub start_run : TimingEvent → ℕ → Outcome TimingEvent
start_run ev start_cycle =
    assert (is_none ev.state || is_queued ev.state)
    >> (assert (leb ev.min_start_cycle start_cycle) >> done (record ev { state = ev_running }))

unfoldable pub hold : TimingEvent → Outcome TimingEvent
hold ev = assert (is_running ev.state) >> done (record ev { state = ev_held })

unfoldable pub release : TimingEvent → Outcome TimingEvent
release ev = assert (is_held ev.state) >> done (record ev { state = ev_running })

-- `done`: the event, and the cycle at which its children are told.
unfoldable pub finish : TimingEvent → ℕ → Outcome (TimingEvent × ℕ)
finish ev done_cycle =
    assert (is_running ev.state)
    >> done (record ev { state = ev_done }, (done_cycle + ev.post_delay) % 2 ^ 64)
