-- ===== src/Sched/Scheduler/Phase.antt =====
-- `Scheduler` of src/scheduler.h at the end of a phase, and its sleeping threads: `callback`,
-- `schedTick`, `markForSleep`, `notifySleepEnd`, and `finish`. `draw i` is what `rnd.randInt(i)`
-- returns in a call.
use cache_sim.Sched.Scheduler.Calls.{end_sleep, any_core}
use cache_sim.Base.{
  if◌then◌else◌, ◌==◌, leb, done, ◌>>=◌, failed, assert, ◌>>◌, Outcome, set, get_or, ℕ, zero, suc,
  ◌+◌, ◌-◌, ◌%◌, ◌^◌, Bool, true, false, not, ◌||◌, Option, none, some, List, [], ◌∷◌, ◌++◌,
}
use cache_sim.Sched.Scheduler.{
  is_queued, blocked, is_started, erase, set_thread, on, is_blocked, wakeup, range_from, put,
  deschedule, first_fit, unlinked, set_state, is_sleeping, Scheduler, is_out,
}

unfoldable pub mark_for_sleep : Scheduler → ℕ → ℕ → Outcome Scheduler
mark_for_sleep s g wakeup_phase =
    assert (s.known g)
    >> (assert (not (s.threads g).marked_for_sleep)
        >> done (
            set_thread s g (record (s.threads g) {
              marked_for_sleep = true;
              wakeup_phase = wakeup_phase;
              futex_word = 1;
            })))

unfoldable pub notify_sleep_end : Scheduler → ℕ → Outcome Scheduler
notify_sleep_end s g =
    assert (s.known g)
    >> (assert (not (s.threads g).marked_for_sleep)
        >> (assert (is_sleeping (s.threads g).state || is_blocked (s.threads g).state)
            >> (if is_blocked (s.threads g).state then done s else end_sleep s g)))

-- `updateMask` of a thread that is known.
unfoldable pub update_mask : Scheduler → ℕ → (ℕ → Bool) → Outcome Scheduler
update_mask s g mask =
    if s.known g
    then (assert (any_core mask s.num_cores)
        >> done (set_thread s g (record (s.threads g) { mask = mask })))
    else done s

-- The end of `finish`, of a thread that is not running. `gidMap` forgets the thread.
unfoldable pub finish : Scheduler → ℕ → Outcome Scheduler
finish s g =
    let s1 = record s { known = put s.known g false } in
    assert (
      is_started (s.threads g).state
      || (is_out (s.threads g).state
          || (is_blocked (s.threads g).state || is_queued (s.threads g).state)))
    >> (if is_queued (s.threads g).state
        then (assert (on g s.run_queue) >> done (record s1 { run_queue = erase g s.run_queue }))
        else if unlinked s g
        then done s1
        else (assert (on g s.out_queue)
            >> (deschedule (record s1 { out_queue = erase g s.out_queue }) g (s.threads g).cid
                  blocked
                >>= λ s2.
                    assert (not (on (s.threads g).cid s2.free_list))
                    >> done (record s2 { free_list = s2.free_list ++ ((s.threads g).cid ∷ []) }))))

-- The loop over `sleepQueue`, which is the list it is given.
unfoldable pub wake_sleepers : List ℕ → Scheduler → Outcome Scheduler
wake_sleepers [] s = done s
wake_sleepers (g ∷ rest) s = elim (leb (s.threads g).wakeup_phase s.cur_phase) [
  | true ↦
      assert ((s.threads g).wakeup_phase == s.cur_phase)
      >> (wakeup (set_state s g blocked) g false >>= λ s1.
          wake_sleepers rest (record s1 { sleep_queue = rest }))
  | false ↦ done s
]

-- `victimTh->handoffThread = th`
unfoldable pub set_handoff : Scheduler → Option ℕ → ℕ → Outcome Scheduler
set_handoff s none g = failed
set_handoff s (some v) g = done (set_thread s v (record (s.threads v) { handoff_thread = some g }))

unfoldable pub shuffle_cores : (ℕ → ℕ) → ℕ → List ℕ → List ℕ
shuffle_cores draw zero xs = xs
shuffle_cores draw (suc i) xs =
    let j = draw (suc i) in
    shuffle_cores draw i (set (set xs (suc i) (get_or xs j 0)) j (get_or xs (suc i) 0))

-- The loop over `runQueue`, which is the first list; the second is `avail`.
unfoldable pub tick_loop : List ℕ → List ℕ → Scheduler → Outcome Scheduler
tick_loop [] avail s = done s
tick_loop (g ∷ rest) [] s = done s
tick_loop (g ∷ rest) (a ∷ avail) s = elim (first_fit (s.threads g).mask (a ∷ avail)) [
  | none ↦ tick_loop rest (a ∷ avail) s
  | some c ↦ set_handoff s (s.contexts c).cur_thread g >>= λ s1.
      tick_loop rest (erase c (a ∷ avail)) (record s1 { run_queue = erase g s1.run_queue })
]

unfoldable pub sched_tick : (ℕ → ℕ) → Scheduler → Outcome Scheduler
sched_tick draw s =
    tick_loop s.run_queue (shuffle_cores draw (s.num_cores - 1) (range_from 0 s.num_cores)) s

abbrev pub no_one : List ℕ → Bool
no_one [] = true
no_one (g ∷ gs) = false

-- `numPhases` of `zinfo` is a field of the state.
unfoldable pub callback : (ℕ → ℕ) → Scheduler → Outcome Scheduler
callback draw s =
    let s1 = record s {
      num_phases = (s.num_phases + 1) % 2 ^ 64;
      cur_phase = (s.cur_phase + 1) % 2 ^ 64;
    } in
    assert (leb s.scheduled_threads s.num_cores)
    >> (assert (s1.cur_phase == s1.num_phases)
        >> (wake_sleepers s1.sleep_queue s1 >>= λ s2.
            if no_one s2.run_queue
            then done s2
            else if (s2.cur_phase % s2.sched_quantum) == 0
            then sched_tick draw s2
            else done s2))
