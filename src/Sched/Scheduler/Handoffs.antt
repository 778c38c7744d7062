-- ===== src/Sched/Scheduler/Handoffs.antt =====
-- What `sync` of src/scheduler.h does behind the barrier, to a scheduler that fits.
use cache_sim.Sched.Scheduler.Promises.{Promises}
use cache_sim.Sched.Scheduler.Frames.{Frame}
use cache_sim.Sched.Scheduler.Seat.{seated, seat-Fits}
use cache_sim.Sched.Scheduler.Comeback.{Admitted, find_seat-Admitted}
use cache_sim.Sched.Scheduler.Unseat.{unseated, unseat-FitsWith}
use cache_sim.Sched.Scheduler.Pick.{deschedule_lem, schedule_lem, wakeup_lem}
use cache_sim.Sched.Scheduler.Lists.{put_other, put_self}
use cache_sim.Sched.Scheduler.Calls.{hand_over, handoff}
use cache_sim.Sched.Scheduler.Fits.{Fits, FitsWith}
use cache_sim.Sched.Scheduler.Moves.{touch-FitsWith}
use cache_sim.Sched.Barrier.Tally.{occurs}
use cache_sim.Sched.Barrier.Run.{Call, joins}
use cache_sim.Base.{
  Returns, Returns->>=, ℕ, ◌<◌, ◌≡◌, refl, sym, ap, ◌∙◌, ◌≢◌, ◌⊎◌, true, Option, none, some, [],
  arith, Returns-map, subst, inl, inr, false, ◌∷◌, ℕ_discrete,
}
use cache_sim.Sched.Scheduler.{
  is_queued, is_running, running, Scheduler, is_sleeping, is_out, set_thread, queued, holds,
  may_run, idle_context, ThreadInfo, put,
}

-- A thread that was given a context by its owner: it waits, and is off the run queue.
pub record Heir (s : Scheduler) (g h : ℕ) : Type 0 where
  pub chosen : (s.threads g).handoff_thread ≡ some h
  pub waits : (s.threads h).state ≡ queued
  pub asleep : (s.threads h).futex_word ≡ 1
  pub off : occurs h s.run_queue ≡ 0

-- The thread that had the context has another one, or waits, while running threads have all contexts
-- that it may have.
pub record Replaced (s : Scheduler) (g h : ℕ) (r : Scheduler × Option Call) : Type 0 where
  pub fits : Fits r.0
  pub promised : Promises s → Promises r.0
  pub heir_runs : ((r.0.threads h).state ≡ running) × ((r.0.threads h).cid ≡ (s.threads g).cid)
  pub outcome :
      (((r.0.threads g).state ≡ running) × (r.1 ≡ some (joins (r.0.threads g).cid)))
      ⊎ (((r.0.threads g).state ≡ queued) × (r.1 ≡ none) × (0 < occurs g r.0.run_queue))

-- After the context has changed hands.
pub record Handed (s : Scheduler) (g h : ℕ) (s' : Scheduler) : Type 0 where
  pub fits : Fits s'
  pub heir_runs : ((s'.threads h).state ≡ running) × ((s'.threads h).cid ≡ (s.threads g).cid)
  pub waits : (s'.threads g).state ≡ queued
  pub off : occurs g s'.run_queue ≡ 0
  pub heir_off : occurs h s'.run_queue ≡ 0
  pub others : (u : ℕ) → u ≢ g → u ≢ h → s'.threads u ≡ s.threads u
  pub freed : (s'.threads g).handoff_thread ≡ none
  pub heir_promise : (s'.threads h).handoff_thread ≡ (s.threads h).handoff_thread
  pub same_run : s'.run_queue ≡ s.run_queue

-- The promise is kept, and the others stand.
replaced-Promises :
    (s : Scheduler) (g h : ℕ) (s' s2 : Scheduler)
    → Promises s
    → (s.threads g).state ≡ running
    → Heir s g h
    → Handed s g h s'
    → Frame s' g s2
    → Promises s2
replaced-Promises s g h s' s2 p was heir d f =
    let kept : (v : ℕ) → v ≢ g → (s'.threads v).handoff_thread ≡ (s.threads v).handoff_thread =
      λ v ne. elim (ℕ_discrete v h) [
        | yes e ↦
            subst (λ k. (s'.threads k).handoff_thread ≡ (s.threads k).handoff_thread) (sym e)
              d.heir_promise
        | no other ↦ ap (λ x. x.handoff_thread) (d.others v ne other)
      ] in
    let old : (v u : ℕ)
        → (s2.threads v).handoff_thread ≡ some u
        → (v ≢ g) × ((s.threads v).handoff_thread ≡ some u) =
      λ v u e.
        let ne : v ≢ g = λ same.
          let clash : none ≡ some u =
            sym d.freed
            ∙ subst (λ k. (s'.threads k).handoff_thread ≡ some u) same (sym (f.promises v) ∙ e) in
          absurd (ground (arith, clash)) in
        (ne, sym (kept v ne) ∙ sym (f.promises v) ∙ e) in
    record {
      waits = λ v u e.
          let o = old v u e in
          let w = p.waits v u o.1 in
          let not_heir : u ≢ h =
            λ same. o.0 (p.sole v g u o.1 (heir.chosen ∙ ap some (sym same))) in
          let not_self : u ≢ g = λ same.
            let clash : queued ≡ running = sym w.0 ∙ ap (λ k. (s.threads k).state) same ∙ was in
            absurd (ground (arith, ap is_running clash)) in
          let th = d.others u not_self not_heir in
          let off : occurs u s'.run_queue ≡ 0 = ap (occurs u) d.same_run ∙ w.2 in
          let th2 = f.same u not_self (ap (λ x. is_out x.state) th ∙ rw w.0 refl) off in
          (
            ap (λ x. x.state) (th2 ∙ th) ∙ w.0,
            ap (λ x. x.futex_word) (th2 ∙ th) ∙ w.1,
            omega (arith, f.no_more u not_self, off),
          );
      sole = λ v w u e e'. p.sole v w u (old v u e).1 (old w u e').1;
    }

module _ (s : Scheduler) (g : ℕ) (f : Fits s) (was : (s.threads g).state ≡ running) where
  hand_over-Handed :
      (h : ℕ) → Heir s g h → Returns (hand_over s g h (s.threads g).cid) (Handed s g h)
  unfolding hand_over
  hand_over-Handed h heir =
      let v : ThreadInfo = record (s.threads g) { handoff_thread = none } in
      let s1 = set_thread s g v in
      let now = put_self s.threads g v in
      let off_g : occurs g s.run_queue ≡ 0 = ground (arith, f.queues.runs g, ap is_queued was) in
      let f1 = touch-FitsWith [] s g v f refl refl (λ o. absurd (omega (arith, off_g, o))) in
      let run1 : (s1.threads g).state ≡ running = ap (λ x. x.state) now ∙ was in
      let had : holds (s1.threads g).state ≡ true = rw run1 refl in
      let kept = f1.seats.held g had in
      let apart : h ≢ g = λ e.
        let clash : queued ≡ running = sym heir.waits ∙ ap (λ k. (s.threads k).state) e ∙ was in
        absurd (ground (arith, ap is_running clash)) in
      let same1 = put_other s.threads g h v apart in
      let w : ThreadInfo = record (s1.threads g) { state = queued } in
      let s2 = unseated s1 g w s1.out_queue s1.sleep_queue in
      let same2 : s2.threads h ≡ s.threads h = put_other s1.threads g h w apart ∙ same1 in
      let waits : may_run (s2.threads h).state ≡ true = rw (same2, heir.waits) refl in
      let f2 =
        unseat-FitsWith s1 g w s1.out_queue s1.sleep_queue f1 had refl refl (λ u ne. refl)
          (λ u ne. refl) (ground (arith, f1.queues.outs g, ap is_out run1))
          (ground (arith, f1.queues.sleeps g, ap is_sleeping run1)) in
      let c = (s.threads g).cid in
      let at : (s1.threads g).cid ≡ c = ap (λ x. x.cid) now in
      let f2' : FitsWith (c ∷ []) s2 = subst (λ k. FitsWith (k ∷ []) s2) at f2 in
      let idle2 : s2.contexts c ≡ idle_context =
        subst (λ k. s2.contexts k ≡ idle_context) at
          (put_self s1.contexts (s1.threads g).cid idle_context) in
      let inside : c < s.num_cores = subst (λ k. k < s.num_cores) at kept.0 in
      let v3 : ThreadInfo = record (s2.threads h) { state = running; cid = c } in
      let s3 = seated s2 h c in
      let v4 : ThreadInfo = record (s3.threads h) { needs_join = false; futex_word = 0 } in
      let differs : g ≢ h = λ e. apart (sym e) in
      let seen : put s3.threads h v4 h ≡ v4 = put_self s3.threads h v4 in
      let seen3 : s3.threads h ≡ v3 = put_self s2.threads h v3 in
      let g_now : put s3.threads h v4 g ≡ w =
        put_other s3.threads h g v4 differs
        ∙ put_other s2.threads h g v3 differs
        ∙ put_self s1.threads g w in
      rw
        (
          deschedule_lem s1 g (s.threads g).cid queued (ap (λ x. x.cid) (sym now)) had kept.1 refl,
          schedule_lem s2 h (s.threads g).cid waits idle2,
          wakeup_lem s3 h false
              (ap (λ x. x.futex_word) seen3 ∙ ap (λ x. x.futex_word) same2 ∙ heir.asleep),
        )
        (record {
          fits =
              touch-FitsWith [] s3 h v4 (seat-Fits s2 h c f2' waits heir.off inside idle2) refl refl
                (λ o. absurd (omega (arith, heir.off, o)));
          heir_runs = (
            ap (λ x. x.state) seen ∙ ap (λ x. x.state) seen3,
            ap (λ x. x.cid) seen ∙ ap (λ x. x.cid) seen3,
          );
          waits = ap (λ x. x.state) g_now;
          off = off_g;
          heir_off = heir.off;
          others = λ u ne_g ne_h.
              put_other s3.threads h u v4 ne_h
              ∙ put_other s2.threads h u v3 ne_h
              ∙ put_other s1.threads g u w ne_g
              ∙ put_other s.threads g u v ne_g;
          freed = ap (λ x. x.handoff_thread) g_now ∙ ap (λ x. x.handoff_thread) now;
          heir_promise =
              ap (λ x. x.handoff_thread) seen
              ∙ ap (λ x. x.handoff_thread) seen3
              ∙ ap (λ x. x.handoff_thread) same2;
          same_run = refl;
        })

  -- `sync` of a thread whose context was promised to another returns, behind the barrier, with a
  -- scheduler that fits: the other thread runs there, and this one runs elsewhere, with a call of the
  -- barrier, or waits on the run queue.
  pub handoff-Replaced : (h : ℕ) → Heir s g h → Returns (handoff s g) (Replaced s g h)
  unfolding handoff
  handoff-Replaced h heir =
      let apart : h ≢ g = λ e.
        let clash : queued ≡ running = sym heir.waits ∙ ap (λ k. (s.threads k).state) e ∙ was in
        absurd (ground (arith, ap is_running clash)) in
      rw heir.chosen (
        Returns->>= (hand_over s g h (s.threads g).cid) _ (Handed s g h) (Replaced s g h)
          (hand_over-Handed h heir)
          (λ s' d.
            Returns-map _ (Admitted s' g) (Replaced s g h)
              (find_seat-Admitted s' g d.fits (rw d.waits refl) d.off)
              (λ r j.
                let same : r.0.threads h ≡ s'.threads h =
                  j.frame.same h apart (rw d.heir_runs.0 refl) d.heir_off in
                record {
                  fits = j.fits;
                  promised = λ p. replaced-Promises s g h s' r.0 p was heir d j.frame;
                  heir_runs = (
                    ap (λ x. x.state) same ∙ d.heir_runs.0,
                    ap (λ x. x.cid) same ∙ d.heir_runs.1,
                  );
                  outcome = elim j.outcome [
                    | inl (run, told, fresh) ↦ inl (run, told)
                    | inr (waits, told, on_queue, all_busy) ↦ inr (waits, told, on_queue)
                  ];
                })))
