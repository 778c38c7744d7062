-- ===== src/Sched/Scheduler/Leaves.antt =====
-- What `leave` of src/scheduler.h does to a scheduler that fits.
use cache_sim.Sched.Scheduler.Frames.{Frame, put-Frame, Frame-trans, put-promise}
use cache_sim.Sched.Scheduler.Passing.{sched_context-Picked, Picked, queued_may_run, Chosen}
use cache_sim.Sched.Scheduler.Parting.{
  fall_asleep-Passed, Handed, off, AwayNow, Given, lazily_none, hand_to, with_state,
}
use cache_sim.Sched.Scheduler.Lists.{put_other, put_self}
use cache_sim.Sched.Scheduler.Fits.{Fits}
use cache_sim.Sched.Scheduler.Moves.{touch-FitsWith}
use cache_sim.Sched.Barrier.Tally.{occurs}
use cache_sim.Sched.Barrier.Run.{Call}
use cache_sim.Sched.Scheduler.Calls.{leave, leave_to_sleep, leave_lazily}
use cache_sim.Base.{
  Bool-cases, Returns-then, Returns, Returns-else, Returns-assert, Returns-map, ℕ, ◌<◌, ◌≡◌, refl,
  sym, ap, subst, ◌∙◌, ◌≢◌, ◌⊎◌, inl, inr, true, false, Option, none, some, [], arith, ℕ_discrete,
}
use cache_sim.Sched.Scheduler.{
  is_queued, is_running, running, Scheduler, is_thread, set_thread, ThreadInfo, out, blocked,
  may_run, sched_context, holds, sleeping,
}

-- The thread sleeps if it is marked for it, and else it is blocked or keeps its context; its context
-- goes to a thread that waits, which runs, or leaves the barrier while no thread waits for it.
pub record Left (s : Scheduler) (g c : ℕ) (r : Scheduler × Option Call) : Type 0 where
  pub fits : Fits r.0
  pub asleep : (s.threads g).marked_for_sleep ≡ true → (r.0.threads g).state ≡ sleeping
  pub away :
      (s.threads g).marked_for_sleep ≡ false
      → ((r.0.threads g).state ≡ blocked) ⊎ ((r.0.threads g).state ≡ out)
  pub outcome : Handed s c r
  pub frame : Frame s g r.0

-- The context goes to the first thread that waits for it.
lazily_some :
    (s : Scheduler) (g : ℕ) (f : Fits s) (was : (s.threads g).state ≡ running) (h : ℕ)
    (s' : Scheduler)
    → Chosen [] s (s.threads g).cid h s'
    → Returns (leave_lazily g (s.threads g).cid (some h, s')) (AwayNow s g f was)
unfolding leave_lazily
lazily_some s g f was h s' ch =
    let s'' : Scheduler = record s { run_queue = s'.run_queue } in
    let apart : h ≢ g = λ e.
      absurd (ground (arith, off s g f was, subst (λ k. 0 < occurs k s.run_queue) e ch.waited)) in
    let waits : may_run (s.threads h).state ≡ true =
      queued_may_run (s.threads h).state (omega (arith, f.queues.runs h, ch.waited)) in
    let fits : Fits s'' = subst Fits ch.same ch.fits in
    subst (λ x. Returns (leave_lazily g (s.threads g).cid (some h, x)) (AwayNow s g f was))
      (sym ch.same)
      (Returns-map _ (Given s'' g fits was h) (AwayNow s g f was)
        (hand_to s'' g fits was h apart waits (f.queues.armed h ch.waited) ch.off)
        (λ r t. (
          t.0.fits,
          inl (h, ch.waited, ch.allowed, t.0.has, t.0.runs, t.0.quiet),
          inl t.1,
          record {
            same = λ u ne n off_u.
                let other : u ≢ h = λ e.
                  absurd (ground (arith, ch.waited, off_u, ap (λ k. occurs k s.run_queue) e)) in
                t.0.others u other ∙ put_other s.threads g u (with_state s g blocked) ne;
            no_more = λ u ne. rw t.0.same_run (ch.fewer u);
            promises =
                λ u. t.0.promises u ∙ put-promise s.threads g (with_state s g blocked) u refl;
          },
        )))

lazily-Left :
    (s : Scheduler) (g : ℕ) (f : Fits s) (was : (s.threads g).state ≡ running)
    (r : Option ℕ × Scheduler)
    → Picked [] s (s.threads g).cid r
    → Returns (leave_lazily g (s.threads g).cid r) (AwayNow s g f was)
lazily-Left s g f was (some h, s') ch = lazily_some s g f was h s' ch
lazily-Left s g f was (none, s') (same, unwanted) = rw same (lazily_none s g f was unwanted)

-- A mark that is cleared.
sleepy-Left :
    (s : Scheduler) (g : ℕ)
    → Fits s
    → (s.threads g).state ≡ running
    → (s.threads g).marked_for_sleep ≡ true
    → Returns (leave_to_sleep s g (s.threads g).cid) (Left s g (s.threads g).cid)
unfolding leave_to_sleep
sleepy-Left s g f was marked =
    let v : ThreadInfo = record (s.threads g) { marked_for_sleep = false } in
    let s0 = set_thread s g v in
    let now = put_self s.threads g v in
    let off : occurs g s.run_queue ≡ 0 = ground (arith, f.queues.runs g, ap is_queued was) in
    let f0 = touch-FitsWith [] s g v f refl refl (λ o. absurd (omega (arith, off, o))) in
    let same_mask : (u c : ℕ) → (s0.threads u).mask c ≡ (s.threads u).mask c = λ u c.
      elim (ℕ_discrete u g) [
        | yes e ↦ rw (e, now) refl
        | no ne ↦ rw (put_other s.threads g u v ne) refl
      ] in
    subst (λ c. Returns (leave_to_sleep s g c) (Left s g c)) (ap (λ x. x.cid) now)
      (Returns-map _ _ (Left s g (s0.threads g).cid)
        (fall_asleep-Passed s0 g f0 (ap (λ x. x.state) now ∙ was))
        (λ r p. record {
          fits = p.0;
          frame = Frame-trans s s0 r.0 g (put-Frame s s0 g v refl refl (λ u ne. omega arith)) p.3;
          asleep = λ m. p.2;
          away = λ m. let clash : true ≡ false = sym marked ∙ m in cc;
          outcome = elim p.1 [
            | inl (h, o, m, has, runs, quiet) ↦
                inl (h, o, sym (same_mask h _) ∙ m, has, runs, quiet)
            | inr (told, free, unwanted) ↦
                inr (told, free, λ u o. sym (same_mask u _) ∙ unwanted u o)
          ];
        }))

-- `leave` of a thread that runs returns, with a scheduler that fits. The thread sleeps if it is marked
-- for it, and else is blocked or keeps its context; the context goes to a thread that waits for it,
-- which runs, with no call of the barrier, or it leaves the barrier while no thread waits for it.
pub leave-Left :
    (s : Scheduler) (g : ℕ)
    → Fits s
    → (s.threads g).state ≡ running
    → Returns (leave s g (s.threads g).cid) (Left s g (s.threads g).cid)
unfolding leave
leave-Left s g f was =
    let had : holds (s.threads g).state ≡ true = rw was refl in
    let its : is_thread (s.contexts (s.threads g).cid).cur_thread g ≡ true =
      ap (λ x. is_thread x.cur_thread g) (f.seats.held g had).1 ∙ ground arith in
    Returns-assert (is_thread (s.contexts (s.threads g).cid).cur_thread g) _
      (Left s g (s.threads g).cid) its
      (Returns-assert (is_running (s.threads g).state) _ (Left s g (s.threads g).cid) (rw was refl)
        (elim (Bool-cases (s.threads g).marked_for_sleep) [
          | inl y ↦
              Returns-then (s.threads g).marked_for_sleep _ _ (Left s g (s.threads g).cid) y
                (sleepy-Left s g f was y)
          | inr n ↦ Returns-else (s.threads g).marked_for_sleep _ _ (Left s g (s.threads g).cid) n (
              Returns-map _ (AwayNow s g f was) (Left s g (s.threads g).cid)
                (lazily-Left s g f was (sched_context s (s.threads g).cid)
                  (sched_context-Picked [] s (s.threads g).cid f))
                (λ r p. record {
                  fits = p.0;
                  asleep = λ m. let clash : true ≡ false = sym m ∙ n in cc;
                  away = λ m. p.2;
                  frame = p.3;
                  outcome = p.1;
                }))
        ]))
