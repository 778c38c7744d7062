-- ===== src/Sched/Scheduler/Tests.antt =====
-- Tests and witnesses for the scheduler: threads on one core, which all have started.
use cache_sim.Sched.Scheduler.Events.{comes, occur}
use cache_sim.Sched.Scheduler.Sessions.{
  Reachable, begin, next, Reachable-occur, Reachable-exclusive,
}
use cache_sim.Sched.Scheduler.Sleeps.{Ordered, insert_sleeper-Ordered}
use cache_sim.Sched.Scheduler.Phase.{
  sched_tick, shuffle_cores, wake_sleepers, callback, tick_loop, set_handoff, update_mask,
}
use cache_sim.Sched.Scheduler.Ends.{Rested, callback-PhaseEnded, PhaseEnded}
use cache_sim.Sched.Scheduler.Leaves.{Left, leave-Left}
use cache_sim.Sched.Scheduler.Fresh.{fresh-Fits}
use cache_sim.Sched.Scheduler.Ticks.{sched_tick-Ticked, Ticked}
use cache_sim.Sched.Scheduler.Fits.{Fits, Busy}
use cache_sim.Sched.Scheduler.Handoffs.{Heir, Replaced, handoff-Replaced}
use cache_sim.Sched.Barrier.Tally.{occurs}
use cache_sim.Sched.Barrier.Run.{Call}
use cache_sim.Sched.Scheduler.Comeback.{Admitted}
use cache_sim.Sched.Scheduler.Joins.{join-Admitted}
use cache_sim.Sched.Scheduler.Calls.{
  join, leave, handoff, seat_or_queue, insert_sleeper, end_sleep, come_back, queue_up,
}
use cache_sim.Sched.Scheduler.{
  holds, running, range_from, sched_thread, Scheduler, schedule, find_context, steal, started,
  is_sleeping, ThreadInfo, sleeping, queued, new_scheduler,
}
use cache_sim.Base.{
  done, Returns, Outcome, failed, ℕ, ◌+◌, ◌-◌, ◌^◌, ◌≤◌, ◌<◌, ◌≡◌, refl, ap, inl, inr, true, false,
  Option, none, [], ◌∷◌, arith, ◌==◌,
}

abbrev ready : ThreadInfo
ready = record {
  state = started;
  cid = 0;
  handoff_thread = none;
  futex_word = 0;
  needs_join = false;
  marked_for_sleep = false;
  wakeup_phase = 0;
  mask = λ c. true;
}

abbrev one_core : Scheduler
one_core = record (new_scheduler 1 1) { known = λ g. true; threads = λ g. ready }

abbrev new_state : Scheduler → Outcome (Scheduler × Option Call) → Scheduler
new_state s (done r) = r.0
new_state s failed = s

one_core-Fits : Fits one_core
one_core-Fits = fresh-Fits (λ g. true) (λ g. ready) 1 1 (omega arith) (λ g. (refl, omega arith))

join-new_state :
    (s s' : Scheduler) (g : ℕ) (m : Outcome (Scheduler × Option Call))
    → Returns m (Admitted s g)
    → Fits (new_state s' m)
join-new_state s s' g (done r) j = j.fits
join-new_state s s' g failed j = absurd j

-- The first thread runs.
abbrev first_in : Scheduler
first_in = new_state one_core (join one_core 0)

first_in-Fits : Fits first_in
unfolding new_scheduler
first_in-Fits =
    join-new_state one_core one_core 0 (join one_core 0)
      (join-Admitted one_core 0 one_core-Fits refl refl (inr (inr (inl refl))))

-- The second waits.
abbrev second_in : Scheduler
second_in = new_state first_in (join first_in 1)

join-Admitted_example : Returns (join first_in 1) (Admitted first_in 1)
unfolding new_scheduler join end_sleep come_back sched_thread find_context seat_or_queue schedule
join-Admitted_example = join-Admitted first_in 1 first_in-Fits refl refl (inr (inr (inl refl)))

second_in-Fits : Fits second_in
second_in-Fits = join-new_state first_in first_in 1 (join first_in 1) join-Admitted_example

first_runs : (second_in.threads 0).state ≡ running
unfolding new_scheduler join end_sleep come_back sched_thread find_context seat_or_queue schedule
    steal queue_up
first_runs = refl

second_waits : (second_in.threads 1).state ≡ queued
unfolding new_scheduler join end_sleep come_back sched_thread find_context seat_or_queue schedule
    steal queue_up
second_waits = refl

leave-Left_example :
    Returns
      (leave second_in 0 (second_in.threads 0).cid)
      (Left second_in 0 (second_in.threads 0).cid)
leave-Left_example = leave-Left second_in 0 second_in-Fits first_runs

abbrev last : ℕ → ℕ
last i = i

last-fair : (i : ℕ) → last i ≤ i
last-fair i = omega arith

nobody_sleeps :
    (s : Scheduler) → Fits s → s.sleep_queue ≡ [] → (g : ℕ) → (s.threads g).state ≡ sleeping → ⊥
nobody_sleeps s f none_there g st =
    absurd (ground (arith, f.queues.sleeps g, ap (occurs g) none_there, ap is_sleeping st))

second_in-Rested : Rested second_in
unfolding new_scheduler join end_sleep come_back sched_thread find_context seat_or_queue schedule
    steal queue_up
second_in-Rested = record {
  ordered = tt;
  armed = λ g st. absurd (nobody_sleeps second_in second_in-Fits refl g st);
  in_step = refl;
}

early : second_in.cur_phase + 1 < 2 ^ 64
unfolding new_scheduler join end_sleep come_back sched_thread find_context seat_or_queue schedule
    steal queue_up
early = omega arith

callback-PhaseEnded_example : Returns (callback last second_in) (PhaseEnded second_in)
callback-PhaseEnded_example =
    callback-PhaseEnded second_in second_in-Fits second_in-Rested early last last-fair

sched_tick-Ticked_example : Returns (sched_tick last second_in) (
    Ticked
      (shuffle_cores last (second_in.num_cores - 1) (range_from 0 second_in.num_cores))
      second_in)
sched_tick-Ticked_example = sched_tick-Ticked last second_in last-fair second_in-Fits

abbrev after_phase : Outcome Scheduler → Scheduler
after_phase (done s) = s
after_phase failed = one_core

-- The phase ends, and the first thread is asked to give way to the second.
abbrev asked_first : Scheduler
asked_first = after_phase (callback last second_in)

phase-Fits : (m : Outcome Scheduler) → Returns m (PhaseEnded second_in) → Fits (after_phase m)
phase-Fits (done s) e = e.fits
phase-Fits failed e = absurd e

second_promised : Heir asked_first 0 1
unfolding new_scheduler join end_sleep come_back sched_thread find_context seat_or_queue schedule
    steal queue_up callback wake_sleepers sched_tick tick_loop set_handoff shuffle_cores
second_promised = record { chosen = refl; waits = refl; asleep = refl; off = refl }

asked_runs : (asked_first.threads 0).state ≡ running
unfolding new_scheduler join end_sleep come_back sched_thread find_context seat_or_queue schedule
    steal queue_up callback wake_sleepers sched_tick tick_loop set_handoff shuffle_cores
asked_runs = refl

handoff-Replaced_example : Returns (handoff asked_first 0) (Replaced asked_first 0 1)
handoff-Replaced_example =
    handoff-Replaced asked_first 0
      (phase-Fits (callback last second_in) callback-PhaseEnded_example) asked_runs 1
      second_promised

insert_sleeper-Ordered_example : Ordered (λ g. g) (insert_sleeper (λ g. g) 2 (1 ∷ 2 ∷ 3 ∷ []))
insert_sleeper-Ordered_example =
    insert_sleeper-Ordered (λ g. g) 2 (1 ∷ 2 ∷ 3 ∷ [])
      ((λ u h. ground (arith, h)), ((λ u h. ground (arith, h)), ((λ u h. ground (arith, h)), tt)))

first_in-Reachable : Reachable 1 1 first_in
unfolding new_scheduler join end_sleep come_back sched_thread find_context seat_or_queue schedule
first_in-Reachable =
    next (begin (λ g. true) (λ g c. true)) (comes 0) (refl, refl, inr (inr (inl refl))) refl

one_only : 1 < 2 ^ 32
one_only = omega arith

Reachable-occur_example : Returns (occur first_in (comes 1)) (λ r. Reachable 1 1 r.0)
unfolding new_scheduler join end_sleep come_back sched_thread find_context seat_or_queue schedule
Reachable-occur_example =
    Reachable-occur 1 1 (omega arith) one_only (comes 1) first_in-Reachable
      (refl, refl, inr (inr (inl refl)))

second_in-Reachable : Reachable 1 1 second_in
unfolding new_scheduler join end_sleep come_back sched_thread find_context seat_or_queue schedule
    steal queue_up
second_in-Reachable = next first_in-Reachable (comes 1) (refl, refl, inr (inr (inl refl))) refl

Reachable-exclusive_example :
    ((g h : ℕ)
      → holds (second_in.threads g).state ≡ true
      → holds (second_in.threads h).state ≡ true
      → (second_in.threads g).cid ≡ (second_in.threads h).cid
      → g ≡ h)
    × ((g c : ℕ)
        → 0 < occurs g second_in.run_queue
        → c < second_in.num_cores
        → (second_in.threads g).mask c ≡ true
        → Busy second_in.threads second_in.contexts c)
Reachable-exclusive_example = Reachable-exclusive 1 1 (omega arith) one_only second_in-Reachable

-- Another thread may change the mask of one that waits. A waiting thread that may then have an idle
-- context has no victim when the quantum ends.
abbrev two_cores : Scheduler
two_cores = record (new_scheduler 2 1) {
  known = λ g. true;
  threads = λ g. record ready { mask = λ c. c == 0 };
}

abbrev crowded : Scheduler
crowded = let one_in = new_state two_cores (join two_cores 0) in new_state one_in (join one_in 1)

abbrev widened : Scheduler
widened = after_phase (update_mask crowded 1 (λ c. c == 1))

no_victim : callback last widened ≡ failed
unfolding new_scheduler join end_sleep come_back sched_thread find_context seat_or_queue schedule
    steal queue_up callback wake_sleepers sched_tick tick_loop set_handoff shuffle_cores update_mask
no_victim = refl
