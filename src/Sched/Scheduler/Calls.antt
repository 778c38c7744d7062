-- ===== src/Sched/Scheduler/Calls.antt =====
-- The calls of `Scheduler` of src/scheduler.h: `start`, `join`, `leave` and `sync`. The result is the
-- new state, and the call of the barrier that ends the scheduler's call.
use cache_sim.Sched.Barrier.Run.{syncs, Call, leaves, joins}
use cache_sim.Sched.Scheduler.{
  is_running, running, is_sleeping, wait_for_context, set_state, queued, is_out, set_thread,
  deschedule, sched_thread, wakeup, is_blocked, sleeping, is_started, is_thread, started, erase,
  out, put, on, sched_context, blocked, schedule, Scheduler, unlinked,
}
use cache_sim.Base.{
  if◌then◌else◌, ltb, ◌>>=◌, ◌>>◌, assert, failed, done, Outcome, ℕ, zero, suc, Bool, true, false,
  not, ◌||◌, Option, none, some, List, [], ◌∷◌, ◌++◌,
}

abbrev pub any_core : (ℕ → Bool) → ℕ → Bool
any_core mask zero = false
any_core mask (suc n) = mask n || any_core mask n

unfoldable pub start : Scheduler → ℕ → (ℕ → Bool) → Outcome Scheduler
start s g mask =
    assert (not (s.known g))
    >> (assert (any_core mask s.num_cores)
        >> done (record s {
          known = put s.known g true;
          threads = put s.threads g (record {
            state = started;
            cid = 0;
            handoff_thread = none;
            futex_word = 0;
            needs_join = (s.threads g).needs_join;
            marked_for_sleep = false;
            wakeup_phase = 0;
            mask = mask;
          });
        }))

-- `join` of a sleeping thread, which ends its sleep early.
unfoldable pub end_sleep : Scheduler → ℕ → Outcome Scheduler
end_sleep s g =
    if is_sleeping (s.threads g).state
    then (assert (on g s.sleep_queue)
        >> done (record (set_state s g blocked) { sleep_queue = erase g s.sleep_queue }))
    else done s

-- `th->state = QUEUED` is set where it is not yet so.
unfoldable pub queue_up : Scheduler → ℕ → Outcome (Scheduler × Option Call)
queue_up s g =
    let s' = set_state s g queued in
    assert (unlinked s' g)
    >> done (wait_for_context (record s' { run_queue = s'.run_queue ++ (g ∷ []) }) g, none)

-- A context found for the thread, or none.
unfoldable pub seat_or_queue : ℕ → Option ℕ × Scheduler → Outcome (Scheduler × Option Call)
seat_or_queue g (some c, s) = schedule s g c >>= λ s'. done (s', some (joins c))
seat_or_queue g (none, s) = queue_up s g

unfoldable pub come_back : Scheduler → ℕ → Outcome (Scheduler × Option Call)
come_back s g =
    if is_out (s.threads g).state
    then (assert (on g s.out_queue)
        >> done (
          record (set_state s g running) { out_queue = erase g s.out_queue },
          some (joins (s.threads g).cid),
        ))
    else (assert (is_blocked (s.threads g).state || is_started (s.threads g).state)
        >> (sched_thread s g >>= λ r. seat_or_queue g r))

unfoldable pub join : Scheduler → ℕ → Outcome (Scheduler × Option Call)
join s g =
    assert (s.known g)
    >> (assert (not (s.threads g).marked_for_sleep) >> (end_sleep s g >>= λ s'. come_back s' g))

-- The insertion into `sleepQueue`, in front of the first thread with a later deadline.
unfoldable pub insert_sleeper : (ℕ → ℕ) → ℕ → List ℕ → List ℕ
insert_sleeper deadline g [] = g ∷ []
insert_sleeper deadline g (x ∷ xs) =
    if ltb (deadline g) (deadline x) then g ∷ x ∷ xs else x ∷ insert_sleeper deadline g xs

abbrev pub deadlines : Scheduler → ℕ → ℕ
deadlines s g = (s.threads g).wakeup_phase

-- The thread `inTh` takes the context, which is still on the barrier.
unfoldable pub take_over : Scheduler → ℕ → ℕ → Outcome (Scheduler × Option Call)
take_over s h c = schedule s h c >>= λ s1. wakeup s1 h false >>= λ s2. done (s2, none)

-- The context is free, and leaves the barrier.
unfoldable pub give_up : Scheduler → ℕ → Outcome (Scheduler × Option Call)
give_up s c =
    assert (not (on c s.free_list))
    >> done (record s { free_list = s.free_list ++ (c ∷ []) }, some (leaves c))

abbrev pub pass_on : ℕ → Option ℕ × Scheduler → Outcome (Scheduler × Option Call)
pass_on c (some h, s) = take_over s h c
pass_on c (none, s) = give_up s c

unfoldable pub leave_to_sleep : Scheduler → ℕ → ℕ → Outcome (Scheduler × Option Call)
leave_to_sleep s g c =
    deschedule (set_thread s g (record (s.threads g) { marked_for_sleep = false })) g c sleeping
    >>= λ s1.
        assert (unlinked s1 g)
        >> (let s2 = record s1 { sleep_queue = insert_sleeper (deadlines s1) g s1.sleep_queue } in
            pass_on c (sched_context s2 c))

unfoldable pub leave_lazily : ℕ → ℕ → Option ℕ × Scheduler → Outcome (Scheduler × Option Call)
leave_lazily g c (some h, s) = deschedule s g c blocked >>= λ s'. take_over s' h c
leave_lazily g c (none, s) =
    if (s.threads g).mask (s.threads g).cid
    then (assert (unlinked s g)
        >> done
            (record (set_state s g out) { out_queue = s.out_queue ++ (g ∷ []) }, some (leaves c)))
    else (deschedule s g c blocked >>= λ s'. give_up s' c)

unfoldable pub leave : Scheduler → ℕ → ℕ → Outcome (Scheduler × Option Call)
leave s g c =
    assert (is_thread (s.contexts c).cur_thread g)
    >> (assert (is_running (s.threads g).state)
        >> (if (s.threads g).marked_for_sleep
            then leave_to_sleep s g c
            else leave_lazily g c (sched_context s c)))

-- `sync` up to the barrier.
abbrev pub sync_thread : Scheduler → Option ℕ → ℕ → Outcome (Scheduler × Option Call)
sync_thread s none c = failed
sync_thread s (some g) c = assert (not (s.threads g).marked_for_sleep) >> done (s, some (syncs c))

unfoldable pub sync : Scheduler → ℕ → Outcome (Scheduler × Option Call)
sync s c = sync_thread s (s.contexts c).cur_thread c

-- `sync` behind the barrier: the context goes to the thread `dst`, if there is one.
unfoldable pub hand_over : Scheduler → ℕ → ℕ → ℕ → Outcome Scheduler
hand_over s g dst c =
    let s1 = set_thread s g (record (s.threads g) { handoff_thread = none }) in
    deschedule s1 g c queued >>= λ s2. schedule s2 dst c >>= λ s3. wakeup s3 dst false

abbrev pub handoff_to : Scheduler → ℕ → Option ℕ → Outcome (Scheduler × Option Call)
handoff_to s g none = assert (is_running (s.threads g).state) >> done (s, none)
handoff_to s g (some dst) =
    hand_over s g dst (s.threads g).cid >>= λ s1. sched_thread s1 g >>= λ r. seat_or_queue g r

unfoldable pub handoff : Scheduler → ℕ → Outcome (Scheduler × Option Call)
handoff s g = handoff_to s g (s.threads g).handoff_thread
