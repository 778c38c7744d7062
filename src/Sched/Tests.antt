-- ===== src/Sched/Tests.antt =====
-- Tests and witnesses for the modules of Sched: two threads on a barrier that runs one at a time.
use cache_sim.Sched.Barrier.Sound.{Listed, tally}
use cache_sim.Sched.Barrier.Run.{
  syncs, Reachable-call, Reachable-waits, call, joins, Reachable, fresh, step, Stops-phase_ends,
  Stops, sync_stop, no_stop, Reachable-counts,
}
use cache_sim.Sched.Barrier.{
  try_wake_next, waiting, join, running, offline, new_barrier, take_place, Barrier, wake_one,
  check_end_phase, wake_loop, check_run_list, cleanup, shuffle, end_phase, cleanup_loop, reschedule,
  sync, shuffle_loop, leave, is_left, is_waiting, is_running,
}
use cache_sim.Base.{
  failed, done, Returns, Outcome, length, ℕ, suc, ◌≤◌, ◌<◌, ◌≡◌, refl, ◌⊎◌, inl, [], arith, ◌+◌,
  ◌-◌,
}

-- The barrier that a call returns.
abbrev after : Barrier ℕ → Outcome (Barrier ℕ) → Barrier ℕ
after b (done b') = b'
after b failed = b

abbrev one_by_one : Barrier ℕ
one_by_one = record {
  parallel_threads = 1;
  thread_list = λ t. record { state = offline; futex_word = 0; last_idx = 7 };
  run_list = [];
  cur_thread_idx = 0;
  running_threads = 0;
  left_threads = 0;
  phase_count = 0;
  sched = 0;
}

abbrev last : ℕ → ℕ
last i = i

last-fair : (i : ℕ) → last i ≤ i
last-fair i = omega arith

abbrev with_first : Barrier ℕ
with_first = after one_by_one (join suc last one_by_one 0)

abbrev with_both : Barrier ℕ
with_both = after with_first (join suc last with_first 1)

fresh-Reachable : Reachable suc 1 one_by_one
unfolding new_barrier
fresh-Reachable = fresh (λ t. 7) 0

first-Reachable : Reachable suc 1 with_first
unfolding join take_place try_wake_next check_run_list wake_loop wake_one check_end_phase
first-Reachable = step fresh-Reachable last (joins 0) last-fair (inl refl) refl

both-Reachable : Reachable suc 1 with_both
unfolding join take_place try_wake_next check_run_list wake_loop wake_one check_end_phase
both-Reachable = step first-Reachable last (joins 1) last-fair (inl refl) refl

second_waits : (with_both.thread_list 1).state ≡ waiting
unfolding join take_place try_wake_next check_run_list wake_loop wake_one check_end_phase
second_waits = refl

first_runs : (with_both.thread_list 0).state ≡ running
unfolding join take_place try_wake_next check_run_list wake_loop wake_one check_end_phase
first_runs = refl

second_offline : (with_first.thread_list 1).state ≡ offline
unfolding join take_place try_wake_next check_run_list wake_loop wake_one check_end_phase
second_offline = refl

Reachable-waits_example :
    (0 < with_both.running_threads)
    × (with_both.running_threads ≤ 1)
    × ((with_both.running_threads ≡ 1) ⊎ (with_both.cur_thread_idx ≡ length with_both.run_list))
Reachable-waits_example = Reachable-waits suc 1 1 (omega arith) both-Reachable second_waits

Reachable-counts_example :
    Listed with_both.run_list with_both.thread_list
    × (with_both.running_threads ≡ tally is_running with_both.thread_list with_both.run_list)
    × (with_both.left_threads ≡ tally is_left with_both.thread_list with_both.run_list)
    × (length with_both.run_list - with_both.running_threads - with_both.left_threads
        ≡ tally is_waiting with_both.thread_list with_both.run_list)
Reachable-counts_example = Reachable-counts suc 1 (omega arith) both-Reachable

Reachable-call_example : Returns (call suc last with_both (syncs 0)) (Reachable suc 1)
Reachable-call_example =
    Reachable-call suc 1 last (syncs 0) last-fair (omega arith) both-Reachable first_runs

abbrev after_one : Barrier ℕ
after_one = after with_both (sync suc last with_both 0)

abbrev after_two : Barrier ℕ
after_two = after after_one (sync suc last after_one 1)

abbrev after_three : Barrier ℕ
after_three = after after_two (sync suc last after_two 0)

three-Stops : Stops suc 1 3 with_both after_three
unfolding join take_place try_wake_next check_run_list wake_loop wake_one check_end_phase sync
    end_phase cleanup cleanup_loop shuffle shuffle_loop
three-Stops =
    sync_stop
      (sync_stop (sync_stop (no_stop with_both) last 0 last-fair refl refl) last 1 last-fair refl
        refl)
      last 0 last-fair refl refl

few_turns : with_both.running_threads + (length with_both.run_list - with_both.cur_thread_idx) < 3
unfolding join take_place try_wake_next check_run_list wake_loop wake_one check_end_phase
few_turns = omega arith

Stops-phase_ends_example : with_both.sched < after_three.sched
Stops-phase_ends_example =
    Stops-phase_ends suc 1 (λ w. w) (λ w. refl) (omega arith) both-Reachable three-Stops few_turns

-- A thread that leaves while it waits for its first turn has no place noted yet; when it joins again,
-- the assertion on its place can fail.
abbrev zeroed : Barrier ℕ
zeroed = record one_by_one {
  thread_list = λ t. record { state = offline; futex_word = 0; last_idx = 0 };
}

abbrev zeroed_first : Barrier ℕ
zeroed_first = after zeroed (join suc last zeroed 0)

abbrev zeroed_both : Barrier ℕ
zeroed_both = after zeroed_first (join suc last zeroed_first 1)

abbrev early_leave : Barrier ℕ
early_leave = after zeroed_both (leave suc last zeroed_both 1)

stale_place : join suc last early_leave 1 ≡ failed
unfolding join leave take_place reschedule try_wake_next check_run_list wake_loop wake_one
    check_end_phase
stale_place = refl
