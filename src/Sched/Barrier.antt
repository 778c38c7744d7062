-- ===== src/Sched/Barrier.antt =====
-- `Barrier` of src/barrier.h. A call is one step, since the caller holds the scheduler's lock; a
-- thread sleeps on its futex exactly while its state is `waiting`. The first `runListSize` elements
-- of `runList` are a list, and `threadList` is a function of the thread. `callback` is what the
-- scheduler does at the end of a phase, and `draw i` what `rnd.randInt(i)` returns in the shuffle
-- of a call.
pub mod Tally
pub mod Shuffle
pub mod Cleanup
pub mod Run
pub mod Join
pub mod Enter
pub mod Steps
pub mod Awake
pub mod Phase
pub mod Wake
pub mod Sound
use Prim.Native.Nat.{◌^◌, ◌^◌, ◌^◌, ◌^◌, ◌^◌, ◌^◌, ◌^◌, ◌^◌}
use cache_sim.Base.{
  if◌then◌else◌, ltb, ◌==◌, assert, done, ◌>>◌, ◌>>=◌, Outcome, set, get_or, drop_last, length,
  drop, ℕ, zero, suc, ◌+◌, ◌-◌, ◌%◌, ◌^◌, Bool, true, false, ◌&&◌, ◌||◌, List, [], ◌∷◌, ◌++◌,
  decrement,
}

pub data ThreadState : Type 0 where
  offline waiting running left : ThreadState

abbrev pub is_offline : ThreadState → Bool
is_offline offline = true
is_offline _ = false

abbrev pub is_waiting : ThreadState → Bool
is_waiting waiting = true
is_waiting _ = false

abbrev pub is_running : ThreadState → Bool
is_running running = true
is_running _ = false

abbrev pub is_left : ThreadState → Bool
is_left left = true
is_left _ = false

pub record ThreadSyncInfo : Type 0 where
  pub state : ThreadState
  pub futex_word : ℕ
  pub last_idx : ℕ

pub record Barrier (W : Type 0) : Type 0 where
  pub parallel_threads : ℕ
  pub thread_list : ℕ → ThreadSyncInfo
  pub run_list : List ℕ
  pub cur_thread_idx : ℕ
  pub running_threads : ℕ
  pub left_threads : ℕ
  pub phase_count : ℕ
  pub sched : W

-- `last_idx` is not initialized by the source.
unfoldable pub new_barrier : {W : Type 0} → ℕ → (ℕ → ℕ) → W → Barrier W
new_barrier parallel_threads garbage sched = record {
  parallel_threads = parallel_threads;
  thread_list = λ t. record { state = offline; futex_word = 0; last_idx = garbage t };
  run_list = [];
  cur_thread_idx = 0;
  running_threads = 0;
  left_threads = 0;
  phase_count = 0;
  sched = sched;
}

abbrev pub write : (ℕ → ThreadSyncInfo) → ℕ → ThreadSyncInfo → ℕ → ThreadSyncInfo
write ts t v u = if u == t then v else ts u

-- `threadList[t].lastIdx = i` and `threadList[t].state = s`
abbrev pub note : (ℕ → ThreadSyncInfo) → ℕ → ℕ → ℕ → ThreadSyncInfo
note ts t i = write ts t (record (ts t) { last_idx = i })

abbrev pub move : (ℕ → ThreadSyncInfo) → ℕ → ThreadState → ℕ → ThreadSyncInfo
move ts t s = write ts t (record (ts t) { state = s })

-- The cleanup pass of `checkEndPhase`. Each round reduces `newSize - idx` by one.
unfoldable pub cleanup_loop : ℕ → ℕ → List ℕ → (ℕ → ThreadSyncInfo) → List ℕ × (ℕ → ThreadSyncInfo)
cleanup_loop zero idx xs ts = (xs, ts)
cleanup_loop (suc k) idx xs ts =
    let wtid = get_or xs idx 0 in
    let stid = get_or xs (length xs - 1) 0 in
    elim (is_left (ts wtid).state) [
      | true ↦
          cleanup_loop k idx (drop_last (set xs idx stid)) (note (move ts wtid offline) stid idx)
      | false ↦ cleanup_loop k (idx + 1) xs ts
    ]

-- The Fisher-Yates shuffle.
unfoldable pub shuffle_loop :
    (ℕ → ℕ) → ℕ → List ℕ → (ℕ → ThreadSyncInfo) → List ℕ × (ℕ → ThreadSyncInfo)
shuffle_loop draw zero xs ts = (xs, ts)
shuffle_loop draw (suc i) xs ts =
    let j = draw (suc i) in
    let itid = get_or xs (suc i) 0 in
    let jtid = get_or xs j 0 in
    shuffle_loop draw i (set (set xs (suc i) jtid) j itid) (note (note ts itid j) jtid (suc i))

module _ {W : Type 0} where
  -- A round of the loop of `checkRunList`, at the thread `wtid`.
  unfoldable pub wake_one : Barrier W → ℕ → Outcome (Barrier W)
  wake_one b wtid =
      if is_waiting (b.thread_list wtid).state
      then (assert ((b.thread_list wtid).futex_word == 1)
          >> done (record b {
            cur_thread_idx = b.cur_thread_idx + 1;
            thread_list =
                write b.thread_list wtid
                  (record { state = running; last_idx = b.cur_thread_idx; futex_word = 0 });
            running_threads = b.running_threads + 1;
          }))
      else done (record b { cur_thread_idx = b.cur_thread_idx + 1 })

  unfoldable pub wake_loop : List ℕ → Barrier W → Outcome (Barrier W)
  wake_loop [] b = done b
  wake_loop (wtid ∷ rest) b = elim (ltb b.running_threads b.parallel_threads) [
    | true ↦ wake_one b wtid >>= λ b'. wake_loop rest b'
    | false ↦ done b
  ]

  unfoldable pub check_run_list : Barrier W → Outcome (Barrier W)
  check_run_list b = wake_loop (drop b.cur_thread_idx b.run_list) b

  unfoldable pub cleanup : Barrier W → Outcome (Barrier W)
  cleanup b =
      let r = cleanup_loop (length b.run_list) 0 b.run_list b.thread_list in
      assert (ltb 0 (length b.run_list))
      >> (assert ((length b.run_list - length r.0) == b.left_threads)
          >> done (record b { run_list = r.0; thread_list = r.1; left_threads = 0 }))

  unfoldable pub shuffle : (ℕ → ℕ) → Barrier W → Barrier W
  shuffle draw b =
      if ltb b.parallel_threads (length b.run_list)
      then (let r = shuffle_loop draw (length b.run_list - 1) b.run_list b.thread_list in
          record b { run_list = r.0; thread_list = r.1 })
      else b

  -- The end-of-phase actions.
  unfoldable pub end_phase : (W → W) → (ℕ → ℕ) → Barrier W → Outcome (Barrier W)
  end_phase callback draw b =
      let rewound = record b {
        sched = callback b.sched;
        cur_thread_idx = 0;
        phase_count = (b.phase_count + 1) % 2 ^ 32;
      } in
      (if (b.phase_count % 32) == 0 then cleanup rewound else done rewound) >>= λ b'.
      done (shuffle draw b')

  unfoldable pub check_end_phase : (W → W) → (ℕ → ℕ) → Barrier W → Outcome (Barrier W)
  check_end_phase callback draw b =
      if (b.cur_thread_idx == length b.run_list) && (b.running_threads == 0)
      then (if b.left_threads == length b.run_list then done b else end_phase callback draw b)
      else done b

  unfoldable pub try_wake_next : (W → W) → (ℕ → ℕ) → Barrier W → Outcome (Barrier W)
  try_wake_next callback draw b =
      check_run_list b >>= λ b1. check_end_phase callback draw b1 >>= λ b2. check_run_list b2

  -- The reschedule in the same phase: `tid` changes places with the last thread that had its turn.
  unfoldable pub reschedule : Barrier W → ℕ → Outcome (Barrier W)
  reschedule b tid =
      let last_idx = (b.thread_list tid).last_idx in
      let cur = b.cur_thread_idx - 1 in
      let other_tid = get_or b.run_list cur 0 in
      if ltb last_idx b.cur_thread_idx
      then (assert (tid == get_or b.run_list last_idx 0)
          >> done (record b {
            cur_thread_idx = cur;
            run_list = set (set b.run_list last_idx other_tid) cur tid;
            thread_list = note (note b.thread_list other_tid last_idx) tid cur;
          }))
      else done b

  -- The first part of `join`: a place on the run list.
  unfoldable pub take_place : Barrier W → ℕ → Outcome (Barrier W)
  take_place b tid =
      if is_offline (b.thread_list tid).state
      then done (record b { run_list = b.run_list ++ (tid ∷ []) })
      else reschedule (record b { left_threads = decrement b.left_threads }) tid

  -- `threadList[tid].state = WAITING; threadList[tid].futexWord = 1;`
  abbrev pub wait : Barrier W → ℕ → Barrier W
  wait b tid = record b {
    thread_list =
        write b.thread_list tid (record (b.thread_list tid) { state = waiting; futex_word = 1 });
  }

  unfoldable pub join : (W → W) → (ℕ → ℕ) → Barrier W → ℕ → Outcome (Barrier W)
  join callback draw b tid =
      assert (is_left (b.thread_list tid).state || is_offline (b.thread_list tid).state)
      >> (take_place b tid >>= λ b'. try_wake_next callback draw (wait b' tid))

  unfoldable pub leave : (W → W) → (ℕ → ℕ) → Barrier W → ℕ → Outcome (Barrier W)
  leave callback draw b tid =
      let gone = record b {
        thread_list = move b.thread_list tid left;
        left_threads = b.left_threads + 1;
      } in
      if is_running (b.thread_list tid).state
      then try_wake_next callback draw
          (record gone { running_threads = decrement b.running_threads })
      else (assert (is_waiting (b.thread_list tid).state) >> done gone)

  unfoldable pub sync : (W → W) → (ℕ → ℕ) → Barrier W → ℕ → Outcome (Barrier W)
  sync callback draw b tid =
      assert (is_running (b.thread_list tid).state)
      >> try_wake_next callback draw
          (record (wait b tid) { running_threads = decrement b.running_threads })
