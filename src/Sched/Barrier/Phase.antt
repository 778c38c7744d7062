-- ===== src/Sched/Barrier/Phase.antt =====
-- The end of a phase: the pass over the run list, and its shuffle.
use cache_sim.Sched.Barrier.Cleanup.{cleanup_loop-Cleaned}
use cache_sim.Sched.Barrier.Sound.{tally, Sound}
use cache_sim.Sched.Barrier.Shuffle.{shuffle_loop-Reordered, Reordered, same_tally}
use cache_sim.Sched.Barrier.{
  is_waiting, shuffle, cleanup, is_running, end_phase, ThreadSyncInfo, is_left, Barrier,
  cleanup_loop,
}
use cache_sim.Base.{
  if◌then◌else◌, ◌==◌, lt→ltb, ltb, Bool-cases, Returns-assert, Returns->>=, Returns, done,
  Returns-if, length, ℕ, ◌+◌, ◌-◌, ◌%◌, ◌^◌, ◌≤◌, ◌<◌, ◌≡◌, refl, sym, ◌∙◌, inl, inr, List, arith,
}

module _ {W : Type 0} where
  -- The barrier at the start of a phase, with the threads of before.
  pub record Rewound (s : W) (b b' : Barrier W) : Type 0 where
    pub sched_is : b'.sched ≡ s
    pub sound : Sound b'
    pub start : b'.cur_thread_idx ≡ 0
    pub same_parallel : b'.parallel_threads ≡ b.parallel_threads
    pub same_running : b'.running_threads ≡ b.running_threads
    pub same_waiting :
        tally is_waiting b'.thread_list b'.run_list ≡ tally is_waiting b.thread_list b.run_list

  Rewound-∙ :
      (b b1 b2 : Barrier W) → Rewound b.sched b b1 → Rewound b1.sched b1 b2 → Rewound b.sched b b2
  Rewound-∙ b b1 b2 p q = record {
    sched_is = q.sched_is ∙ p.sched_is;
    sound = q.sound;
    start = q.start;
    same_parallel = q.same_parallel ∙ p.same_parallel;
    same_running = q.same_running ∙ p.same_running;
    same_waiting = q.same_waiting ∙ p.same_waiting;
  }

  cleanup-Rewound :
      (b : Barrier W)
      → Sound b
      → b.cur_thread_idx ≡ 0
      → 0 < length b.run_list
      → Returns (cleanup b) (Rewound b.sched b)
  unfolding cleanup
  cleanup-Rewound b so start some_thread =
      let left_over = (cleanup_loop (length b.run_list) 0 b.run_list b.thread_list).0 in
      let c =
        cleanup_loop-Cleaned (length b.run_list) 0 b.run_list b.thread_list (omega arith) so.listed
          so.recorded so.armed (λ i h. absurd (omega arith)) in
      Returns-assert _ _ (Rewound b.sched b) (lt→ltb 0 (length b.run_list) some_thread) (
        Returns-assert ((length b.run_list - length left_over) == b.left_threads) _
          (Rewound b.sched b) (ground (arith, c.shorter, so.left_count))
          (record {
            sound = record {
              listed = c.listed;
              recorded = c.recorded;
              armed = c.armed;
              cur_le = omega arith;
              running_count = so.running_count ∙ sym c.same_running;
              left_count = sym c.none_left;
              limited = so.limited;
            };
            start = start;
            sched_is = refl;
            same_parallel = refl;
            same_running = refl;
            same_waiting = c.same_waiting;
          }))

  pub Reordered-Sound :
      (b : Barrier W) (xs : List ℕ) (ts : ℕ → ThreadSyncInfo)
      → Sound b
      → Reordered b.run_list xs b.thread_list ts
      → Sound (record b { run_list = xs; thread_list = ts })
  Reordered-Sound b xs ts so re = record {
    listed = λ t. rw (re.kept_state t, re.same_count (λ u. u == t)) (so.listed t);
    recorded = re.recorded so.recorded;
    armed = λ t. rw (re.kept_state t, re.kept_futex_word t) (so.armed t);
    cur_le = rw re.same_length so.cur_le;
    running_count = so.running_count ∙ sym (same_tally re is_running);
    left_count = so.left_count ∙ sym (same_tally re is_left);
    limited = so.limited;
  }

  shuffle-Rewound :
      (draw : ℕ → ℕ) (b : Barrier W)
      → ((i : ℕ) → draw i ≤ i)
      → Sound b
      → b.cur_thread_idx ≡ 0
      → Rewound b.sched b (shuffle draw b)
  unfolding shuffle
  shuffle-Rewound draw b fair so start =
      let re =
        shuffle_loop-Reordered draw (length b.run_list - 1) b.run_list b.thread_list fair
          (λ p. omega arith) in
      elim (Bool-cases (ltb b.parallel_threads (length b.run_list))) [
        | inl many ↦
            rw (shuffle, many)
              (record {
                sound = Reordered-Sound b _ _ so re;
                start = start;
                sched_is = refl;
                same_parallel = refl;
                same_running = refl;
                same_waiting = same_tally re is_waiting;
              })
        | inr few ↦
            rw (shuffle, few)
              (record {
                sound = so;
                start = start;
                sched_is = refl;
                same_parallel = refl;
                same_running = refl;
                same_waiting = refl;
              })
      ]

  pub end_phase-Rewound :
      (callback : W → W) (draw : ℕ → ℕ) (b : Barrier W)
      → ((i : ℕ) → draw i ≤ i)
      → Sound b
      → 0 < length b.run_list
      → Returns (end_phase callback draw b) (Rewound (callback b.sched) b)
  unfolding end_phase
  end_phase-Rewound callback draw b fair so some_thread =
      let rewound = record b {
        sched = callback b.sched;
        cur_thread_idx = 0;
        phase_count = (b.phase_count + 1) % 2 ^ 32;
      } in
      let so1 : Sound rewound = record {
        listed = so.listed;
        recorded = so.recorded;
        armed = so.armed;
        cur_le = omega arith;
        running_count = so.running_count;
        left_count = so.left_count;
        limited = so.limited;
      } in
      Returns->>= (if (b.phase_count % 32) == 0 then cleanup rewound else done rewound)
        (λ b'. done (shuffle draw b')) (Rewound rewound.sched rewound)
        (Rewound (callback b.sched) b)
        (Returns-if ((b.phase_count % 32) == 0) (cleanup rewound) (done rewound)
          (Rewound rewound.sched rewound) (cleanup-Rewound rewound so1 refl some_thread)
          (record {
            sound = so1;
            start = refl;
            sched_is = refl;
            same_parallel = refl;
            same_running = refl;
            same_waiting = refl;
          }))
        λ b1 r.
          let fin =
            Rewound-∙ rewound b1 (shuffle draw b1) r
              (shuffle-Rewound draw b1 fair r.sound r.start) in
          record {
            sound = fin.sound;
            start = fin.start;
            sched_is = fin.sched_is;
            same_parallel = fin.same_parallel;
            same_running = fin.same_running;
            same_waiting = fin.same_waiting;
          }
