-- ===== src/Sched/Barrier/Steps.antt =====
-- `sync` and `leave` of a running thread: from a barrier that is awake to one that is.
use cache_sim.Sched.Barrier.Wake.{turns}
use cache_sim.Sched.Barrier.Tally.{one_if}
use cache_sim.Sched.Barrier.Sound.{write-Changed, Sound, Sound-Changed, listed_once, tally-write}
use cache_sim.Sched.Barrier.Awake.{Awake, Stepped, try_wake_next-Stepped}
use cache_sim.Sched.Barrier.{
  is_running, is_left, write, is_offline, running, is_waiting, Barrier, decrement, leave, left,
  waiting, ThreadSyncInfo, sync, try_wake_next,
}
use cache_sim.Base.{
  Returns, Returns-assert, Returns-map, Returns-then, ℕ, suc, ◌+◌, ◌≤◌, ◌<◌, ◌≡◌, refl, ap, true,
  false, arith, zero, ◌⊎◌, inl, inr,
}

pub decrement-positive : (n : ℕ) → 0 < n → n ≡ suc (decrement n)
decrement-positive zero h = absurd (omega arith)
decrement-positive (suc n) h = refl

module _ {W : Type 0} (callback : W → W) where
  -- A running thread that stops ends the phase, or brings its end nearer.
  pub record Advanced (b b' : Barrier W) : Type 0 where
    pub awake : Awake b'
    pub same_parallel : b'.parallel_threads ≡ b.parallel_threads
    pub nearer : ((b'.sched ≡ b.sched) × (turns b' < turns b)) ⊎ (b'.sched ≡ callback b.sched)

module _ {W : Type 0} (callback : W → W) (draw : ℕ → ℕ) (fair : (i : ℕ) → draw i ≤ i) where
  some_running :
      (b : Barrier W) (tid : ℕ)
      → Sound b
      → (b.thread_list tid).state ≡ running
      → b.running_threads ≡ suc (decrement b.running_threads)
  some_running b tid so r =
      let once = listed_once b tid so (rw r refl) in
      let gone : ThreadSyncInfo = record (b.thread_list tid) { state = left } in
      decrement-positive b.running_threads (
        omega (
          arith,
          so.running_count,
          tally-write is_running b.thread_list tid gone b.run_list once,
          ap (λ s. one_if (is_running s)) r,
        ))

  -- A running thread that goes on to `waiting` or `left`.
  stopped_Sound :
      (b : Barrier W) (tid : ℕ) (v : ThreadSyncInfo) (left_now : ℕ)
      → Sound b
      → (b.thread_list tid).state ≡ running
      → is_offline v.state ≡ false
      → is_running v.state ≡ false
      → v.last_idx ≡ (b.thread_list tid).last_idx
      → (is_waiting v.state ≡ true → v.futex_word ≡ 1)
      → left_now ≡ b.left_threads + one_if (is_left v.state)
      → Sound (record b {
        thread_list = write b.thread_list tid v;
        running_threads = decrement b.running_threads;
        left_threads = left_now;
      })
  stopped_Sound b tid v left_now so r on stops place futex le =
      let once = listed_once b tid so (rw r refl) in
      let placed = so.recorded tid (rw r refl) in
      let c =
        write-Changed b.run_list b.thread_list tid v (Sound-Changed b so) on once
          (λ h. rw place placed) futex in
      let fewer = tally-write is_running b.thread_list tid v b.run_list once in
      let more = tally-write is_left b.thread_list tid v b.run_list once in
      let was = ap (λ s. one_if (is_running s)) r in
      let was_not = ap (λ s. one_if (is_left s)) r in
      let is = ap one_if stops in
      let less = some_running b tid so r in
      record {
        listed = c.listed;
        recorded = c.recorded;
        armed = c.armed;
        cur_le = so.cur_le;
        running_count = omega (arith, so.running_count, fewer, was, is, less);
        left_count = omega (arith, so.left_count, more, was_not, le);
        limited = omega (arith, so.limited, less);
      }

  stopped_Advanced :
      (b : Barrier W) (tid : ℕ) (v : ThreadSyncInfo) (left_now : ℕ)
      → Sound b
      → 0 < b.parallel_threads
      → (b.thread_list tid).state ≡ running
      → is_offline v.state ≡ false
      → is_running v.state ≡ false
      → v.last_idx ≡ (b.thread_list tid).last_idx
      → (is_waiting v.state ≡ true → v.futex_word ≡ 1)
      → left_now ≡ b.left_threads + one_if (is_left v.state)
      → Returns
          (try_wake_next callback draw (record b {
            thread_list = write b.thread_list tid v;
            running_threads = decrement b.running_threads;
            left_threads = left_now;
          }))
          (Advanced callback b)
  stopped_Advanced b tid v left_now so par r on stops place futex le =
      let stopped = record b {
        thread_list = write b.thread_list tid v;
        running_threads = decrement b.running_threads;
        left_threads = left_now;
      } in
      Returns-map (try_wake_next callback draw stopped) (Stepped callback stopped)
        (Advanced callback b)
        (try_wake_next-Stepped callback draw stopped fair
          (stopped_Sound b tid v left_now so r on stops place futex le) par)
        (λ b' st. record {
          awake = st.awake;
          same_parallel = st.same_parallel;
          nearer = elim st.ahead [
            | inl go ↦ inl (go.0, omega (arith, go.1, some_running b tid so r))
            | inr (ended, none_waits) ↦ inr ended
          ];
        })

  -- `sync` by a running thread of a barrier that is awake returns; the barrier is awake again, and the
  -- phase has ended, with one call of the scheduler, or is nearer to its end.
  pub sync-Advanced :
      (b : Barrier W) (tid : ℕ)
      → Awake b
      → 0 < b.parallel_threads
      → (b.thread_list tid).state ≡ running
      → Returns (sync callback draw b tid) (Advanced callback b)
  unfolding sync
  sync-Advanced b tid aw par r =
      Returns-assert (is_running (b.thread_list tid).state) _ (Advanced callback b) (rw r refl) (
        stopped_Advanced b tid (record (b.thread_list tid) { state = waiting; futex_word = 1 })
          b.left_threads aw.sound par r refl refl refl (λ h. refl) (omega arith))

  -- The same for `leave` by a running thread.
  pub leave-Advanced :
      (b : Barrier W) (tid : ℕ)
      → Awake b
      → 0 < b.parallel_threads
      → (b.thread_list tid).state ≡ running
      → Returns (leave callback draw b tid) (Advanced callback b)
  unfolding leave
  leave-Advanced b tid aw par r =
      Returns-then (is_running (b.thread_list tid).state) _ _ (Advanced callback b) (rw r refl) (
        stopped_Advanced b tid (record (b.thread_list tid) { state = left }) (b.left_threads + 1)
          aw.sound par r refl refl refl (λ h. cc) refl)
