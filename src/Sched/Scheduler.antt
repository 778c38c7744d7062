-- ===== src/Sched/Scheduler.antt =====
-- `Scheduler` of src/scheduler.h, above its barrier. A thread is its gid, and `known` says which gids
-- `gidMap` holds; a context is its cid. An intrusive list is the list of its nodes: to remove a node
-- asserts that it is there, and to add one that it is on no list. An operation runs with the
-- scheduler's lock held; one that ends in a call of the barrier gives that call back, and the rest of
-- `sync` and of `waitForContext` are the operations `handoff` and `resume`. The join, leave and
-- context switch of the core models, the statistics and `atSyncFunc` act on none of this state.
use cache_sim.Sched.Barrier.Tally.{occurs}
pub mod Lists
pub mod Fits
pub mod Frames
pub mod Promises
pub mod Moves
pub mod Switches
pub mod Seating
pub mod Seat
pub mod Unseat
pub mod Pick
pub mod Comeback
pub mod Joins
pub mod Parting
pub mod Leaves
pub mod Handoffs
pub mod Ticks
pub mod Sleeps
pub mod Ends
pub mod Fresh
pub mod Still
pub mod Settled
pub mod Rests
pub mod Events
pub mod Deadlines
pub mod Sessions
mod Tests
pub mod Passing
pub mod Calls
pub mod Phase
use cache_sim.Sched.Barrier.Run.{Call, joins, leaves, syncs}
use cache_sim.Util.InList.{is_null}
use cache_sim.Base.{
  ◌==◌, decrement, ltb, if◌then◌else◌, ◌>>◌, assert, Outcome, done, ◌>>=◌, ℕ, zero, suc, ◌+◌, ◌%◌,
  ◌^◌, Bool, true, false, not, ◌&&◌, ◌||◌, Option, none, some, List, [], ◌∷◌, failed, ◌++◌,
}

pub data ThreadState : Type 0 where
  started running out blocked sleeping queued : ThreadState

pub data ContextState : Type 0 where
  idle used : ContextState

abbrev pub is_started : ThreadState → Bool
is_started started = true
is_started _ = false

abbrev pub is_running : ThreadState → Bool
is_running running = true
is_running _ = false

abbrev pub is_out : ThreadState → Bool
is_out out = true
is_out _ = false

abbrev pub is_blocked : ThreadState → Bool
is_blocked blocked = true
is_blocked _ = false

abbrev pub is_sleeping : ThreadState → Bool
is_sleeping sleeping = true
is_sleeping _ = false

abbrev pub is_queued : ThreadState → Bool
is_queued queued = true
is_queued _ = false

-- The states that `schedule` takes, those in which a thread has a context, and the targets of
-- `deschedule`.
abbrev pub may_run : ThreadState → Bool
may_run st = is_started st || (is_blocked st || is_queued st)

abbrev pub holds : ThreadState → Bool
holds st = is_running st || is_out st

abbrev pub is_rest : ThreadState → Bool
is_rest st = is_blocked st || (is_queued st || is_sleeping st)

abbrev pub is_idle : ContextState → Bool
is_idle idle = true
is_idle used = false

abbrev pub is_used : ContextState → Bool
is_used idle = false
is_used used = true

pub record ThreadInfo : Type 0 where
  pub state : ThreadState
  pub cid : ℕ
  pub handoff_thread : Option ℕ
  pub futex_word : ℕ
  pub needs_join : Bool
  pub marked_for_sleep : Bool
  pub wakeup_phase : ℕ
  pub mask : ℕ → Bool

pub record ContextInfo : Type 0 where
  pub state : ContextState
  pub cur_thread : Option ℕ

pub record Scheduler : Type 0 where
  pub num_cores : ℕ
  pub sched_quantum : ℕ
  pub known : ℕ → Bool
  pub threads : ℕ → ThreadInfo
  pub contexts : ℕ → ContextInfo
  pub free_list : List ℕ
  pub run_queue : List ℕ
  pub out_queue : List ℕ
  pub sleep_queue : List ℕ
  pub cur_phase : ℕ
  pub num_phases : ℕ
  pub scheduled_threads : ℕ

abbrev pub idle_context : ContextInfo
idle_context = record { state = idle; cur_thread = none }

abbrev pub used_by : ℕ → ContextInfo
used_by g = record { state = used; cur_thread = some g }

abbrev pub put {ℓ} : {A : Type ℓ} → (ℕ → A) → ℕ → A → ℕ → A
put f i v j = if j == i then v else f j

-- `p == g` on a pointer that may be null.
abbrev pub is_thread : Option ℕ → ℕ → Bool
is_thread none g = false
is_thread (some h) g = h == g

abbrev pub on : ℕ → List ℕ → Bool
on g gs = ltb 0 (occurs g gs)

-- `InList::remove` of a node that is on the list.
abbrev pub erase : ℕ → List ℕ → List ℕ
erase g [] = []
erase g (x ∷ xs) = if x == g then xs else x ∷ erase g xs

-- The first node of a list that passes a test.
abbrev pub first_fit : (ℕ → Bool) → List ℕ → Option ℕ
first_fit p [] = none
first_fit p (x ∷ xs) = if p x then some x else first_fit p xs

-- The thread is on no list.
abbrev pub unlinked : Scheduler → ℕ → Bool
unlinked s g = not (on g s.run_queue || (on g s.out_queue || on g s.sleep_queue))

abbrev pub range_from : ℕ → ℕ → List ℕ
range_from i zero = []
range_from i (suc n) = i ∷ range_from (i + 1) n

-- What stands for the thread of a gid that is not known; `start` writes over it.
abbrev pub no_thread : ThreadInfo
no_thread = record {
  state = blocked;
  cid = 0;
  handoff_thread = none;
  futex_word = 0;
  needs_join = false;
  marked_for_sleep = false;
  wakeup_phase = 0;
  mask = λ c. false;
}

-- The constructor.
unfoldable pub new_scheduler : ℕ → ℕ → Scheduler
new_scheduler num_cores sched_quantum = record {
  num_cores = num_cores;
  sched_quantum = sched_quantum;
  known = λ g. false;
  threads = λ g. no_thread;
  contexts = λ c. idle_context;
  free_list = range_from 0 num_cores;
  run_queue = [];
  out_queue = [];
  sleep_queue = [];
  cur_phase = 0;
  num_phases = 0;
  scheduled_threads = 0;
}

abbrev pub set_thread : Scheduler → ℕ → ThreadInfo → Scheduler
set_thread s g th = record s { threads = put s.threads g th }

abbrev pub set_state : Scheduler → ℕ → ThreadState → Scheduler
set_state s g st = set_thread s g (record (s.threads g) { state = st })

unfoldable pub schedule : Scheduler → ℕ → ℕ → Outcome Scheduler
schedule s g c =
    assert (may_run (s.threads g).state)
    >> (assert (is_idle (s.contexts c).state)
        >> (assert (is_null (s.contexts c).cur_thread)
            >> done (record s {
              threads = put s.threads g (record (s.threads g) { state = running; cid = c });
              contexts = put s.contexts c (used_by g);
              scheduled_threads = (s.scheduled_threads + 1) % 2 ^ 32;
            })))

unfoldable pub deschedule : Scheduler → ℕ → ℕ → ThreadState → Outcome Scheduler
deschedule s g c target =
    assert (holds (s.threads g).state)
    >> (assert (is_used (s.contexts c).state)
        >> (assert (c == (s.threads g).cid)
            >> (assert (is_thread (s.contexts c).cur_thread g)
                >> (assert (is_rest target)
                    >> done (record s {
                      threads = put s.threads g (record (s.threads g) { state = target });
                      contexts = put s.contexts c idle_context;
                      scheduled_threads = decrement s.scheduled_threads;
                    })))))

-- `wakeup`, up to the wait for the thread.
unfoldable pub wakeup : Scheduler → ℕ → Bool → Outcome Scheduler
wakeup s g needs_join =
    assert ((s.threads g).futex_word == 1)
    >> done (set_thread s g (record (s.threads g) { needs_join = needs_join; futex_word = 0 }))

-- `waitForContext`, up to the sleep, and after it.
abbrev pub wait_for_context : Scheduler → ℕ → Scheduler
wait_for_context s g = set_thread s g (record (s.threads g) { futex_word = 1 })

abbrev pub resume : Scheduler → ℕ → Option Call
resume s g = if (s.threads g).needs_join then some (joins (s.threads g).cid) else none

unfoldable pub sched_context : Scheduler → ℕ → Option ℕ × Scheduler
sched_context s c = elim (first_fit (λ g. (s.threads g).mask c) s.run_queue) [
  | none ↦ (none, s)
  | some g ↦ (some g, record s { run_queue = erase g s.run_queue })
]

-- The third search of `schedThread`: a thread that left, and still has its context.
unfoldable pub steal : Scheduler → ℕ → Outcome (Option ℕ × Scheduler)
steal s g = elim (first_fit (λ o. (s.threads g).mask (s.threads o).cid) s.out_queue) [
  | none ↦ done (none, s)
  | some o ↦
      deschedule (record s { out_queue = erase o s.out_queue }) o (s.threads o).cid blocked
      >>= λ s'. done (some (s.threads o).cid, s')
]

abbrev pub take_free : Scheduler → ℕ → Outcome (Option ℕ × Scheduler)
take_free s c =
    assert (on c s.free_list) >> done (some c, record s { free_list = erase c s.free_list })

unfoldable pub find_context : Scheduler → ℕ → Outcome (Option ℕ × Scheduler)
find_context s g =
    if is_idle (s.contexts (s.threads g).cid).state && (s.threads g).mask (s.threads g).cid
    then take_free s (s.threads g).cid
    else elim (first_fit (s.threads g).mask s.free_list) [
      | none ↦ steal s g
      | some c ↦ take_free s c
    ]

abbrev pub allows : (ℕ → Bool) → Option ℕ → Bool
allows mask none = true
allows mask (some c) = mask c

unfoldable pub sched_thread : Scheduler → ℕ → Outcome (Option ℕ × Scheduler)
sched_thread s g =
    assert (ltb (s.threads g).cid s.num_cores)
    >> (find_context s g >>= λ r. assert (allows (s.threads g).mask r.0) >> done r)
