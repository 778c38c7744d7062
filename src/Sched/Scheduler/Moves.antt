-- ===== src/Sched/Scheduler/Moves.antt =====
-- Threads that go from list to list and keep the context they have, or none, fit as before.
use cache_sim.Base.{
  ℕ, ◌≤◌, ◌<◌, ◌≡◌, refl, sym, ap, ◌∙◌, ◌≢◌, true, false, List, [], ◌∷◌, ◌++◌, arith, ℕ_discrete,
}
use cache_sim.Sched.Scheduler.Lists.{
  erase_self, append_other, put_self, put_other, erase_other, append_self,
}
use cache_sim.Sched.Scheduler.Fits.{FitsWith, Busy, put-Seats, Served, put-Busy, put-Queues}
use cache_sim.Sched.Barrier.Tally.{occurs}
use cache_sim.Sched.Scheduler.{
  is_running, running, ThreadState, sleeping, out, erase, blocked, may_run, is_out, holds, started,
  set_thread, is_sleeping, put, queued, Scheduler, ThreadInfo,
}
use cache_sim.Util.InList.{own}

-- A thread that may run is neither out nor asleep, and has no context.
pub rests :
    (st : ThreadState)
    → may_run st ≡ true
    → (is_out st ≡ false) × (is_sleeping st ≡ false) × (holds st ≡ false) × (is_running st ≡ false)
rests started e = (refl, refl, refl, refl)
rests blocked e = (refl, refl, refl, refl)
rests queued e = (refl, refl, refl, refl)
rests running e = cc
rests out e = cc
rests sleeping e = cc

module _ (limbo : List ℕ) (s : Scheduler) where
  pub put-Served :
      (g : ℕ) (v : ThreadInfo) (run' : List ℕ)
      → FitsWith limbo s
      → ((s.threads g).state ≡ running → v.state ≡ running)
      → ((u : ℕ) → u ≢ g → occurs u run' ≡ occurs u s.run_queue)
      → ((c : ℕ)
          → 0 < occurs g run'
          → c < s.num_cores
          → v.mask c ≡ true
          → occurs c limbo ≡ 0
          → Busy s.threads s.contexts c)
      → Served s.num_cores (put s.threads g v) s.contexts limbo run'
  put-Served g v run' f stays same own u c = elim (ℕ_discrete u g) [
    | yes e ↦
        rw (e, put_self s.threads g v)
          (λ o l m z. put-Busy s.num_cores s.threads s.contexts limbo g v c stays (own c o l m z))
    | no ne ↦
        rw (put_other s.threads g u v ne, same u ne)
          (λ o l m z.
            put-Busy s.num_cores s.threads s.contexts limbo g v c stays (f.served u c o l m z))
  ]

  pub put-in_range :
      (g : ℕ) (v : ThreadInfo)
      → FitsWith limbo s
      → v.cid < s.num_cores
      → (u : ℕ) → (put s.threads g v u).cid < s.num_cores
  put-in_range g v f small u = elim (ℕ_discrete u g) [
    | yes e ↦ rw (e, put_self s.threads g v) small
    | no ne ↦ rw (put_other s.threads g u v ne) (f.in_range u)
  ]

  -- The thread's part in its context, and on the lists, is as before.
  pub touch-FitsWith :
      (g : ℕ) (v : ThreadInfo)
      → FitsWith limbo s
      → v.state ≡ (s.threads g).state
      → v.cid ≡ (s.threads g).cid
      → (0 < occurs g s.run_queue
          → (v.futex_word ≡ 1) × ((c : ℕ) → v.mask c ≡ (s.threads g).mask c))
      → FitsWith limbo (set_thread s g v)
  touch-FitsWith g v f same_state same_cid waits = record {
    queues =
        put-Queues s.threads s.run_queue s.out_queue s.sleep_queue s.run_queue s.out_queue
          s.sleep_queue g v f.queues (λ u ne. refl) (λ u ne. refl) (λ u ne. refl)
          (rw same_state (f.queues.runs g)) (rw same_state (f.queues.outs g))
          (rw same_state (f.queues.sleeps g)) (λ o. (waits o).0);
    seats =
        put-Seats s.num_cores s.threads s.contexts limbo g v s.free_list s.scheduled_threads f.seats
          same_cid (ap holds same_state);
    served =
        put-Served g v s.run_queue f (λ r. same_state ∙ r) (λ u ne. refl)
          (λ c o l m z. f.served g c o l (sym ((waits o).1 c) ∙ m) z);
    in_range = put-in_range g v f (rw same_cid (f.in_range g));
    small = f.small;
  }

  -- A thread that is taken off the run queue.
  pub dequeue-FitsWith :
      (g : ℕ)
      → FitsWith limbo s
      → 0 < occurs g s.run_queue
      → FitsWith limbo (record s { run_queue = erase g s.run_queue })
        × (occurs g (erase g s.run_queue) ≡ 0)
  dequeue-FitsWith g f here =
      let fewer : (u : ℕ) → occurs u (erase g s.run_queue) ≤ occurs u s.run_queue = λ u.
        elim (ℕ_discrete u g) [
          | yes e ↦ rw e (omega (arith, erase_self g s.run_queue here))
          | no ne ↦ omega (arith, erase_other g u s.run_queue ne)
        ] in
      (
        record {
          queues = record {
            runs = λ u. omega (arith, fewer u, f.queues.runs u);
            outs = f.queues.outs;
            sleeps = f.queues.sleeps;
            armed = λ u o. f.queues.armed u (omega (arith, fewer u, o));
          };
          seats = f.seats;
          served = λ u c o. f.served u c (omega (arith, fewer u, o));
          in_range = f.in_range;
          small = f.small;
        },
        ground (arith, erase_self g s.run_queue here, f.queues.runs g),
      )

  -- A thread with no context that waits for one: none that it may have is idle or kept by a thread
  -- that left.
  pub enqueue-FitsWith :
      (g : ℕ) (v : ThreadInfo)
      → FitsWith limbo s
      → may_run (s.threads g).state ≡ true
      → v.state ≡ queued
      → v.cid ≡ (s.threads g).cid
      → v.futex_word ≡ 1
      → occurs g s.run_queue ≡ 0
      → ((c : ℕ)
          → c < s.num_cores
          → v.mask c ≡ true
          → occurs c limbo ≡ 0
          → Busy s.threads s.contexts c)
      → FitsWith limbo
          (record s { threads = put s.threads g v; run_queue = s.run_queue ++ (g ∷ []) })
  enqueue-FitsWith g v f waits now_queued same_cid asleep off none_idle = record {
    queues =
        put-Queues s.threads s.run_queue s.out_queue s.sleep_queue (s.run_queue ++ (g ∷ []))
          s.out_queue s.sleep_queue g v f.queues (λ u ne. append_other g u s.run_queue ne)
          (λ u ne. refl) (λ u ne. refl)
          (rw now_queued (omega (arith, append_self g s.run_queue, off)))
          (rw now_queued (ground (arith, f.queues.outs g, rests (s.threads g).state waits)))
          (rw now_queued (ground (arith, f.queues.sleeps g, rests (s.threads g).state waits)))
          (λ o. asleep);
    seats =
        put-Seats s.num_cores s.threads s.contexts limbo g v s.free_list s.scheduled_threads f.seats
          same_cid (rw (now_queued, (rests (s.threads g).state waits).2) refl);
    served =
        put-Served g v (s.run_queue ++ (g ∷ [])) f
          (λ r. absurd (ground (arith, rests (s.threads g).state waits, ap is_running r)))
          (λ u ne. append_other g u s.run_queue ne) (λ c o. none_idle c);
    in_range = put-in_range g v f (rw same_cid (f.in_range g));
    small = f.small;
  }
