-- ===== src/Sched/Barrier/Awake.antt =====
-- `join`, `leave` and `sync`: a barrier never sleeps while a thread could run.
use cache_sim.Sched.Barrier.Phase.{Rewound, end_phase-Rewound}
use cache_sim.Sched.Barrier.Sound.{Sound, counts-total, tally}
use cache_sim.Sched.Barrier.Wake.{Full, Finished, check_run_list-Finished, turns, Woken}
use cache_sim.Sched.Barrier.{try_wake_next, is_waiting, Barrier, check_run_list, check_end_phase}
use cache_sim.Base.{
  Bool-cases, ◌==◌, Returns->>=, Returns-then, Returns-else, Returns-map, Returns, done, length,
  drop, ℕ, ◌≤◌, ◌<◌, ◌≡◌, refl, sym, ap, subst, ◌∙◌, ◌⊎◌, inl, inr, ◌&&◌, arith,
}

module _ {W : Type 0} where
  -- Between two steps: the counts and places are right, as many threads run as may or all had their
  -- turn, and no thread waits for a phase that no running thread will end.
  pub record Awake (b : Barrier W) : Type 0 where
    pub sound : Sound b
    pub full : Full b
    pub busy : 0 < b.running_threads ⊎ (b.left_threads ≡ length b.run_list)

  -- A thread that had no turn in this phase waits.
  abbrev pub IsQueued : Barrier W → Type 0
  IsQueued b = 0 < tally is_waiting b.thread_list (drop b.cur_thread_idx b.run_list)

  -- A step ends the phase, or brings its end no farther.
  pub record Stepped (callback : W → W) (b b' : Barrier W) : Type 0 where
    pub awake : Awake b'
    pub same_parallel : b'.parallel_threads ≡ b.parallel_threads
    pub ahead :
        ((b'.sched ≡ b.sched) × (turns b' ≤ turns b))
        ⊎ ((b'.sched ≡ callback b.sched) × ¬ IsQueued b)

  -- After `checkEndPhase`.
  data Checked (callback : W → W) (b b' : Barrier W) : Type 0 where
    going_on : b' ≡ b → 0 < b.running_threads → Checked callback b b'
    all_left : b' ≡ b → b.left_threads ≡ length b.run_list → Checked callback b b'
    new_phase :
        Rewound (callback b.sched) b b'
        → b.running_threads ≡ 0
        → 0 < tally is_waiting b'.thread_list b'.run_list
        → Checked callback b b'

  check_end_phase-Checked :
      (callback : W → W) (draw : ℕ → ℕ) (b : Barrier W)
      → ((i : ℕ) → draw i ≤ i)
      → Sound b
      → Full b
      → 0 < b.parallel_threads
      → Returns (check_end_phase callback draw b) (Checked callback b)
  unfolding check_end_phase
  check_end_phase-Checked callback draw b fair so full par =
      elim (Bool-cases ((b.cur_thread_idx == length b.run_list) && (b.running_threads == 0))) [
        | inr not_yet ↦
            Returns-else _ _ (done b) (Checked callback b) not_yet
              (going_on refl (ground (arith, not_yet, full, so.limited)))
        | inl over ↦
            Returns-then _ _ (done b) (Checked callback b) over
              (elim (Bool-cases (b.left_threads == length b.run_list)) [
                | inl left_all ↦
                    Returns-then _ (done b) _ (Checked callback b) left_all
                      (all_left refl (ground (arith, left_all)))
                | inr some_wait ↦ Returns-else _ (done b) _ (Checked callback b) some_wait (
                    Returns-map _ (Rewound (callback b.sched) b) (Checked callback b)
                      (end_phase-Rewound callback draw b fair so
                        (ground (arith, some_wait, counts-total b so)))
                      (λ b2 r.
                        new_phase r (ground (arith, over))
                          (rw r.same_waiting (ground (arith, over, some_wait, counts-total b so)))))
              ])
      ]

  Checked-Sound : (callback : W → W) (b b' : Barrier W) → Sound b → Checked callback b b' → Sound b'
  Checked-Sound callback b b' so (going_on e r) = rw e so
  Checked-Sound callback b b' so (all_left e l) = rw e so
  Checked-Sound callback b b' so (new_phase r none_runs w) = r.sound

  Checked-parallel :
      (callback : W → W) (b b' : Barrier W)
      → Checked callback b b'
      → b'.parallel_threads ≡ b.parallel_threads
  Checked-parallel callback b b' (going_on e r) = ap (λ c. c.parallel_threads) e
  Checked-parallel callback b b' (all_left e l) = ap (λ c. c.parallel_threads) e
  Checked-parallel callback b b' (new_phase r none_runs w) = r.same_parallel

  Checked-busy :
      (callback : W → W) (b b1 b2 : Barrier W)
      → Checked callback b b1
      → 0 < b1.parallel_threads
      → Finished (drop b1.cur_thread_idx b1.run_list) b1 b2
      → 0 < b2.running_threads ⊎ (b2.left_threads ≡ length b2.run_list)
  Checked-busy callback b b1 b2 (going_on e r) par fin =
      inl (omega (arith, ap (λ c. c.running_threads) e, r, fin.woken.more))
  Checked-busy callback b b1 b2 (all_left e l) par fin = inr (
      fin.woken.same_left
      ∙ ap (λ c. c.left_threads) e
      ∙ l
      ∙ ap (λ c. length c.run_list) (sym e)
      ∙ ap length (sym fin.woken.same_list))
  Checked-busy callback b b1 b2 (new_phase r none_runs w) par fin = inl (
      fin.progress par
        (subst (λ n. 0 < tally is_waiting b1.thread_list (drop n b1.run_list)) (sym r.start) w))

  Checked-ahead :
      (callback : W → W) (b b1 b2 b3 : Barrier W)
      → Finished (drop b.cur_thread_idx b.run_list) b b1
      → 0 < b.parallel_threads
      → Checked callback b1 b2
      → Woken b2 b3
      → ((b3.sched ≡ b.sched) × (turns b3 ≤ turns b))
        ⊎ ((b3.sched ≡ callback b.sched) × ¬ IsQueued b)
  Checked-ahead callback b b1 b2 b3 p par (going_on e r) q = inl (
    q.same_sched ∙ ap (λ c. c.sched) e ∙ p.woken.same_sched,
    omega (arith, q.turns_le, ap (λ c. turns c) e, p.woken.turns_le),
  )
  Checked-ahead callback b b1 b2 b3 p par (all_left e l) q = inl (
    q.same_sched ∙ ap (λ c. c.sched) e ∙ p.woken.same_sched,
    omega (arith, q.turns_le, ap (λ c. turns c) e, p.woken.turns_le),
  )
  Checked-ahead callback b b1 b2 b3 p par (new_phase r none_runs w) q = inr (
    q.same_sched ∙ r.sched_is ∙ ap callback p.woken.same_sched,
    λ waits. omega (arith, p.progress par waits, none_runs),
  )

  pub try_wake_next-Stepped :
      (callback : W → W) (draw : ℕ → ℕ) (b : Barrier W)
      → ((i : ℕ) → draw i ≤ i)
      → Sound b
      → 0 < b.parallel_threads
      → Returns (try_wake_next callback draw b) (Stepped callback b)
  unfolding try_wake_next
  try_wake_next-Stepped callback draw b fair so par =
      Returns->>= (check_run_list b) _ (Finished (drop b.cur_thread_idx b.run_list) b)
        (Stepped callback b) (check_run_list-Finished b so)
        λ b1 fin1.
          Returns->>= (check_end_phase callback draw b1) check_run_list (Checked callback b1)
            (Stepped callback b)
            (check_end_phase-Checked callback draw b1 fair fin1.woken.sound fin1.full
              (rw fin1.woken.same_parallel par))
            λ b2 ch.
              Returns-map (check_run_list b2) (Finished (drop b2.cur_thread_idx b2.run_list) b2)
                (Stepped callback b)
                (check_run_list-Finished b2 (Checked-Sound callback b1 b2 fin1.woken.sound ch))
                λ b3 fin2. record {
                  awake = record {
                    sound = fin2.woken.sound;
                    full = fin2.full;
                    busy =
                        Checked-busy callback b1 b2 b3 ch
                          (rw (Checked-parallel callback b1 b2 ch, fin1.woken.same_parallel) par)
                          fin2;
                  };
                  ahead = Checked-ahead callback b b1 b2 b3 fin1 par ch fin2.woken;
                  same_parallel =
                      fin2.woken.same_parallel
                      ∙ Checked-parallel callback b1 b2 ch
                      ∙ fin1.woken.same_parallel;
                }
