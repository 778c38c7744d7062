-- ===== src/Sched/Barrier/Join.antt =====
-- `join`: a thread that comes to the barrier for the first time, or comes back.
use cache_sim.Sched.Barrier.Phase.{Reordered-Sound}
use cache_sim.Sched.Barrier.Shuffle.{Reordered, reschedule-Relocated, swap-Reordered}
use cache_sim.Sched.Barrier.Tally.{length-append_one, count-drop}
use cache_sim.Sched.Barrier.Sound.{Sound, write_self}
use cache_sim.Sched.Barrier.Awake.{Awake, Stepped, try_wake_next-Stepped, IsQueued}
use cache_sim.Sched.Barrier.{
  is_left, write, is_offline, Barrier, decrement, left, waiting, ThreadSyncInfo, wait, offline,
  join, note, take_place, reschedule, is_waiting,
}
use cache_sim.Base.{
  Returns, Returns-assert, Returns-map, Returns-then, ℕ, ◌≤◌, ◌<◌, ◌≡◌, refl, ap, arith, get_or,
  length, ◌∙◌, ltb, Bool-cases, ◌==◌, Returns-else, Returns->>=, set, ◌-◌, subst, ◌⊎◌, inl, inr,
  ◌||◌, get_or-set_self, length-set,
}
use cache_sim.Sched.Barrier.Enter.{added_Sound, back_Sound, get_or-append_one}

module _ {W : Type 0} where
  -- The barrier after a thread has its place.
  record Joining (b b' : Barrier W) (tid : ℕ) : Type 0 where
    sound : Sound (wait b' tid)
    same_parallel : b'.parallel_threads ≡ b.parallel_threads
    same_sched : b'.sched ≡ b.sched
    place : ℕ
    ahead : b'.cur_thread_idx ≤ place
    listed : place < length b'.run_list
    there : get_or b'.run_list place 0 ≡ tid

  reschedule-Joining :
      (b : Barrier W) (tid : ℕ)
      → Sound b
      → (b.thread_list tid).state ≡ left
      → Returns
          (reschedule (record b { left_threads = decrement b.left_threads }) tid)
          (λ b'. Joining b b' tid)
  unfolding reschedule
  reschedule-Joining b tid so out =
      let i = (b.thread_list tid).last_idx in
      let j = b.cur_thread_idx - 1 in
      let other = get_or b.run_list j 0 in
      let (hi, here) = so.recorded tid (rw out refl) in
      elim (Bool-cases (ltb i b.cur_thread_idx)) [
        | inr later ↦
            Returns-else (ltb i b.cur_thread_idx) _ _ (λ b'. Joining b b' tid) later
              (record {
                sound = back_Sound b tid so out;
                same_parallel = refl;
                same_sched = refl;
                place = i;
                ahead = ground (arith, later);
                listed = hi;
                there = here;
              })
        | inl earlier ↦
            let hj : j < length b.run_list = ground (arith, earlier, so.cur_le) in
            let re : Reordered b.run_list (set (set b.run_list i other) j tid) b.thread_list
                (note (note b.thread_list other i) tid j) =
              subst
                (λ v.
                  Reordered b.run_list (set (set b.run_list i other) j v) b.thread_list
                    (note (note b.thread_list other i) v j))
                here
                (swap-Reordered b.run_list b.thread_list _ i j hi hj
                  (reschedule-Relocated b.run_list b.thread_list i j)) in
            let so1 = Reordered-Sound b _ _ so re in
            Returns-then (ltb i b.cur_thread_idx) _ _ (λ b'. Joining b b' tid) earlier
              (Returns-assert (tid == get_or b.run_list i 0) _ (λ b'. Joining b b' tid)
                (ground (arith, here))
                (record {
                  sound =
                      back_Sound
                        (record b {
                          cur_thread_idx = j;
                          run_list = set (set b.run_list i other) j tid;
                          thread_list = note (note b.thread_list other i) tid j;
                        })
                        tid
                        (record {
                          listed = so1.listed;
                          recorded = so1.recorded;
                          armed = so1.armed;
                          cur_le = omega (arith, so1.cur_le);
                          running_count = so1.running_count;
                          left_count = so1.left_count;
                          limited = so1.limited;
                        })
                        (re.kept_state tid ∙ out);
                  same_parallel = refl;
                  same_sched = refl;
                  place = j;
                  ahead = omega arith;
                  listed = rw re.same_length hj;
                  there =
                      get_or-set_self (set b.run_list i other) j tid 0
                        (rw (length-set b.run_list i other) hj);
                }))
      ]

  take_place-Joining :
      (b : Barrier W) (tid : ℕ)
      → Sound b
      → ((b.thread_list tid).state ≡ offline) ⊎ ((b.thread_list tid).state ≡ left)
      → Returns (take_place b tid) (λ b'. Joining b b' tid)
  unfolding take_place
  take_place-Joining b tid so (inl off) =
      Returns-then (is_offline (b.thread_list tid).state) _ _ (λ b'. Joining b b' tid) (rw off refl)
        (record {
          sound = added_Sound b tid so off;
          same_parallel = refl;
          same_sched = refl;
          place = length b.run_list;
          ahead = so.cur_le;
          listed = omega (arith, length-append_one b.run_list tid);
          there = get_or-append_one b.run_list tid;
        })
  take_place-Joining b tid so (inr out) =
      Returns-else (is_offline (b.thread_list tid).state) _ _ (λ b'. Joining b b' tid) (rw out refl)
        (reschedule-Joining b tid so out)

  Joining-IsQueued : (b b' : Barrier W) (tid : ℕ) → Joining b b' tid → IsQueued (wait b' tid)
  Joining-IsQueued b b' tid jo =
      let info : ThreadSyncInfo = record (b'.thread_list tid) { state = waiting; futex_word = 1 } in
      count-drop (λ u. is_waiting (write b'.thread_list tid info u).state) b'.run_list
        b'.cur_thread_idx jo.place jo.ahead jo.listed
        (ap (λ u. is_waiting (write b'.thread_list tid info u).state) jo.there
          ∙ ap (λ v. is_waiting v.state) (write_self b'.thread_list tid info))

  -- What a barrier is after a thread joined.
  pub record Joined (b b' : Barrier W) : Type 0 where
    pub awake : Awake b'
    pub same_parallel : b'.parallel_threads ≡ b.parallel_threads
    pub same_phase : b'.sched ≡ b.sched

  -- `join` by a thread that is offline or left returns; the barrier is awake again, and the phase has
  -- not ended.
  pub join-Joined :
      (callback : W → W) (draw : ℕ → ℕ) (b : Barrier W) (tid : ℕ)
      → ((i : ℕ) → draw i ≤ i)
      → Awake b
      → 0 < b.parallel_threads
      → ((b.thread_list tid).state ≡ offline) ⊎ ((b.thread_list tid).state ≡ left)
      → Returns (join callback draw b tid) (Joined b)
  unfolding join
  join-Joined callback draw b tid fair aw par st =
      Returns-assert (is_left (b.thread_list tid).state || is_offline (b.thread_list tid).state) _
        (Joined b) (elim st [ inl off ↦ rw off refl | inr out ↦ rw out refl ])
        (Returns->>= (take_place b tid) _ (λ b'. Joining b b' tid) (Joined b)
          (take_place-Joining b tid aw.sound st)
          λ b1 jo.
            Returns-map _ (Stepped callback (wait b1 tid)) (Joined b)
              (try_wake_next-Stepped callback draw (wait b1 tid) fair jo.sound
                (rw jo.same_parallel par))
              (λ b2 s2. record {
                awake = s2.awake;
                same_parallel = s2.same_parallel ∙ jo.same_parallel;
                same_phase = elim s2.ahead [
                  | inl go ↦ go.0 ∙ jo.same_sched
                  | inr (ended, none_waits) ↦ absurd (none_waits (Joining-IsQueued b b1 tid jo))
                ];
              }))
