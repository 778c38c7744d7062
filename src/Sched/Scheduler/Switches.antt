-- ===== src/Sched/Scheduler/Switches.antt =====
-- A thread that leaves and keeps its context, one that comes back to it, and one that ends its sleep.
use cache_sim.Base.{
  ℕ, ◌<◌, ◌≡◌, refl, sym, ap, subst, ◌∙◌, ◌≢◌, inl, inr, true, false, List, [], ◌∷◌, ◌++◌, arith,
  ℕ_discrete,
}
use cache_sim.Sched.Scheduler.Lists.{erase_other, erase_self, put_other, append_other, append_self}
use cache_sim.Sched.Scheduler.Fits.{put-Queues, Seats, FitsWith, put-Seats, Busy}
use cache_sim.Sched.Scheduler.Moves.{put-Served, put-in_range}
use cache_sim.Sched.Barrier.Tally.{occurs}
use cache_sim.Sched.Scheduler.{
  is_queued, is_running, running, erase, ThreadInfo, holds, is_sleeping, put, is_out, used_by,
  sleeping, out, set_state, Scheduler, ContextInfo, blocked, is_idle,
}

-- The thread of a context is the one that has it.
pub used_by-injective : (g h : ℕ) → used_by g ≡ used_by h → g ≡ h
used_by-injective g h e = cc

pub seat_of :
    (n : ℕ) (ts : ℕ → ThreadInfo) (cs : ℕ → ContextInfo) (limbo free : List ℕ) (scheduled g c : ℕ)
    → Seats n ts cs limbo free scheduled
    → cs c ≡ used_by g
    → (holds (ts g).state ≡ true) × ((ts g).cid ≡ c)
seat_of n ts cs limbo free scheduled g c s e = elim (s.seat c) [
  | inl idle_here ↦ let clash : true ≡ false = ap (λ x. is_idle x.state) (sym idle_here ∙ e) in cc
  | inr (h, taken, hold, at) ↦
      let same : h ≡ g = used_by-injective h g (sym taken ∙ e) in
      (subst (λ u. holds (ts u).state ≡ true) same hold, subst (λ u. (ts u).cid ≡ c) same at)
]

module _ (limbo : List ℕ) (s : Scheduler) (g : ℕ) where
  -- A thread that comes back to the context it kept.
  pub back-FitsWith :
      FitsWith limbo s
      → (s.threads g).state ≡ out
      → FitsWith limbo (record (set_state s g running) { out_queue = erase g s.out_queue })
  back-FitsWith f was =
      let v : ThreadInfo = record (s.threads g) { state = running } in
      let not_queued : occurs g s.run_queue ≡ 0 =
        ground (arith, f.queues.runs g, ap is_queued was) in
      let once : occurs g s.out_queue ≡ 1 = ground (arith, f.queues.outs g, ap is_out was) in
      record {
        queues =
            put-Queues s.threads s.run_queue s.out_queue s.sleep_queue s.run_queue
              (erase g s.out_queue) s.sleep_queue g v f.queues (λ u ne. refl)
              (λ u ne. erase_other g u s.out_queue ne) (λ u ne. refl) (omega (arith, not_queued))
              (omega (arith, once, erase_self g s.out_queue (omega (arith, once))))
              (ground (arith, f.queues.sleeps g, ap is_sleeping was))
              (λ o. absurd (omega (arith, not_queued, o)));
        seats =
            put-Seats s.num_cores s.threads s.contexts limbo g v s.free_list s.scheduled_threads
              f.seats refl (rw was refl);
        served =
            put-Served limbo s g v s.run_queue f (λ r. refl) (λ u ne. refl)
              (λ c o. absurd (omega (arith, not_queued, o)));
        in_range = put-in_range limbo s g v f (f.in_range g);
        small = f.small;
      }

  -- A running thread that leaves, when no thread waits for its context.
  pub away-FitsWith :
      FitsWith limbo s
      → (s.threads g).state ≡ running
      → ((u : ℕ) → 0 < occurs u s.run_queue → (s.threads u).mask (s.threads g).cid ≡ false)
      → FitsWith limbo (record (set_state s g out) { out_queue = s.out_queue ++ (g ∷ []) })
  away-FitsWith f was unwanted =
      let v : ThreadInfo = record (s.threads g) { state = out } in
      let not_queued : occurs g s.run_queue ≡ 0 =
        ground (arith, f.queues.runs g, ap is_queued was) in
      let off : occurs g s.out_queue ≡ 0 = ground (arith, f.queues.outs g, ap is_out was) in
      record {
        queues =
            put-Queues s.threads s.run_queue s.out_queue s.sleep_queue s.run_queue
              (s.out_queue ++ (g ∷ [])) s.sleep_queue g v f.queues (λ u ne. refl)
              (λ u ne. append_other g u s.out_queue ne) (λ u ne. refl) (omega (arith, not_queued))
              (omega (arith, off, append_self g s.out_queue))
              (ground (arith, f.queues.sleeps g, ap is_sleeping was))
              (λ o. absurd (omega (arith, not_queued, o)));
        seats =
            put-Seats s.num_cores s.threads s.contexts limbo g v s.free_list s.scheduled_threads
              f.seats refl (rw was refl);
        served = λ u c. elim (ℕ_discrete u g) [
          | yes e ↦ rw e (λ o. absurd (omega (arith, not_queued, o)))
          | no ne ↦
              rw (put_other s.threads g u v ne) (λ o l m z. still u c o m (f.served u c o l m z))
        ];
        in_range = put-in_range limbo s g v f (f.in_range g);
        small = f.small;
      }
    where
      still :
          (u c : ℕ)
          → 0 < occurs u s.run_queue
          → (s.threads u).mask c ≡ true
          → Busy s.threads s.contexts c
          → Busy (put s.threads g (record (s.threads g) { state = out })) s.contexts c
      still u c o m (h, e, r) = elim (ℕ_discrete h g) [
        | yes same ↦
            let mine : s.contexts c ≡ used_by g = subst (λ k. s.contexts c ≡ used_by k) same e in
            let at =
              (seat_of s.num_cores s.threads s.contexts limbo s.free_list s.scheduled_threads g c
                f.seats mine).1 in
            absurd
              (ground (arith, sym m ∙ subst (λ k. (s.threads u).mask k ≡ false) at (unwanted u o)))
        | no ne ↦ (h, e, rw (put_other s.threads g h _ ne) r)
      ]

  -- A thread whose sleep ends.
  pub wake-FitsWith :
      (v : ThreadInfo) (sleep' : List ℕ)
      → FitsWith limbo s
      → (s.threads g).state ≡ sleeping
      → v.state ≡ blocked
      → v.cid ≡ (s.threads g).cid
      → ((u : ℕ) → u ≢ g → occurs u sleep' ≡ occurs u s.sleep_queue)
      → occurs g sleep' ≡ 0
      → FitsWith limbo (record s { threads = put s.threads g v; sleep_queue = sleep' })
  wake-FitsWith v sleep' f was now same_cid others gone =
      let not_queued : occurs g s.run_queue ≡ 0 =
        ground (arith, f.queues.runs g, ap is_queued was) in
      record {
        queues =
            put-Queues s.threads s.run_queue s.out_queue s.sleep_queue s.run_queue s.out_queue
              sleep' g v f.queues (λ u ne. refl) (λ u ne. refl) others (omega (arith, not_queued))
              (rw now (ground (arith, f.queues.outs g, ap is_out was))) (rw now gone)
              (λ o. absurd (omega (arith, not_queued, o)));
        seats =
            put-Seats s.num_cores s.threads s.contexts limbo g v s.free_list s.scheduled_threads
              f.seats same_cid (rw (was, now) refl);
        served =
            put-Served limbo s g v s.run_queue f
              (λ r. absurd (ground (arith, ap is_running (sym was ∙ r)))) (λ u ne. refl)
              (λ c o. absurd (omega (arith, not_queued, o)));
        in_range = put-in_range limbo s g v f (rw same_cid (f.in_range g));
        small = f.small;
      }
