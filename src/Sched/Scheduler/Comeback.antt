-- ===== src/Sched/Scheduler/Comeback.antt =====
-- What `join` of src/scheduler.h does to a scheduler that fits, for a thread that is awake.
use cache_sim.Sched.Scheduler.Frames.{put-Frame, Frame, Frame-trans}
use mathlib.Core.Path.{fun_ext}
use cache_sim.Sched.Scheduler.Seat.{seat-Fits, seated}
use cache_sim.Sched.Scheduler.Pick.{sched_thread-Found, NoneIdle, schedule_lem, Found, Got}
use cache_sim.Sched.Scheduler.Lists.{append_self, on-lt, put_self, append_other}
use cache_sim.Sched.Scheduler.Calls.{queue_up, come_back, seat_or_queue}
use cache_sim.Sched.Scheduler.Switches.{back-FitsWith, used_by-injective}
use cache_sim.Sched.Scheduler.Fits.{Fits, Busy}
use cache_sim.Sched.Scheduler.Moves.{enqueue-FitsWith, rests}
use cache_sim.Sched.Barrier.Tally.{occurs, one_if}
use cache_sim.Sched.Barrier.Run.{joins, Call}
use cache_sim.Base.{
  Returns, Returns->>=, Returns-assert, ◌>>=◌, Returns-then, Returns-else, ℕ, ◌<◌, ◌≡◌, refl, sym,
  ap, subst, ◌∙◌, ◌⊎◌, inl, inr, true, false, ◌||◌, Option, none, some, [], arith, ℕ_discrete,
}
use cache_sim.Sched.Scheduler.{
  is_queued, running, ThreadState, Scheduler, unlinked, started, is_blocked, queued, is_out, out,
  on, blocked, set_state, ThreadInfo, sched_thread, is_started, put, may_run,
}

-- The thread runs, and the barrier is told of its context, which no running thread had; or it waits
-- on the run queue, while running threads have all contexts that it may have. Promises are kept.
pub record Admitted (s : Scheduler) (g : ℕ) (r : Scheduler × Option Call) : Type 0 where
  pub fits : Fits r.0
  pub outcome :
      (((r.0.threads g).state ≡ running)
        × (r.1 ≡ some (joins (r.0.threads g).cid))
        × (Busy s.threads s.contexts (r.0.threads g).cid → ⊥))
      ⊎ (((r.0.threads g).state ≡ queued)
          × (r.1 ≡ none)
          × (0 < occurs g r.0.run_queue)
          × NoneIdle s g)
  pub frame : Frame s g r.0

unlinked-rests :
    (s : Scheduler) (g : ℕ) (st : ThreadState)
    → Fits s
    → may_run (s.threads g).state ≡ true
    → occurs g s.run_queue ≡ 0
    → unlinked (set_state s g st) g ≡ true
unlinked-rests s g st f waits off =
    let rest = rests (s.threads g).state waits in
    ground (arith, off, f.queues.outs g, f.queues.sleeps g, rest)

module _ (s : Scheduler) (g : ℕ) (f : Fits s) (waits : may_run (s.threads g).state ≡ true)
    (off : occurs g s.run_queue ≡ 0) where
  waiting : ThreadInfo
  waiting = record (s.threads g) { state = queued; futex_word = 1 }

  -- The two writes are one.
  put_twice :
      put
        (put s.threads g (record (s.threads g) { state = queued }))
        g
        (record (put s.threads g (record (s.threads g) { state = queued }) g) { futex_word = 1 })
      ≡ put s.threads g waiting
  unfolding waiting
  put_twice =
      fun_ext
        (λ u. elim (ℕ_discrete u g) [ yes e ↦ rw e (ground arith) | no ne ↦ ground (arith, ne) ])

  pub queue_up-Admitted : NoneIdle s g → Returns (queue_up s g) (Admitted s g)
  unfolding queue_up waiting
  queue_up-Admitted all_busy =
      Returns-assert (unlinked (set_state s g queued) g) _ (Admitted s g)
        (unlinked-rests s g queued f waits off)
        (rw put_twice (record {
          fits =
              enqueue-FitsWith [] s g waiting f waits refl refl refl off
                (λ c inside ok z. all_busy c inside ok);
          outcome = inr (
            ap (λ x. x.state) (put_self s.threads g waiting),
            refl,
            omega (arith, append_self g s.run_queue),
            all_busy,
          );
          frame =
              put-Frame s _ g waiting refl refl
                (λ u ne. omega (arith, append_other g u s.run_queue ne));
        }))

  -- A context that was found.
  pub take_seat-Admitted :
      (s' : Scheduler) (c : ℕ)
      → Got s g c s'
      → Returns (seat_or_queue g (some c, s')) (Admitted s g)
  unfolding seat_or_queue
  take_seat-Admitted s' c got =
      let waits' : may_run (s'.threads g).state ≡ true = rw got.same_thread waits in
      let here = put_self s'.threads g (record (s'.threads g) { state = running; cid = c }) in
      rw (schedule_lem s' g c waits' got.idle_now) (record {
        fits = seat-Fits s' g c got.fits waits' (rw got.same_run off) got.inside got.idle_now;
        outcome =
            inl (
              ap (λ x. x.state) here,
              ap (λ x. some (joins x.cid)) (sym here),
              rw here got.not_busy,
            );
        frame =
            Frame-trans s s' (seated s' g c) g got.frame
              (put-Frame s' (seated s' g c) g _ refl refl (λ u ne. omega arith));
      })

  pub seat_or_queue-Admitted :
      (r : Option ℕ × Scheduler) → Found s g r → Returns (seat_or_queue g r) (Admitted s g)
  unfolding seat_or_queue
  seat_or_queue-Admitted (some c, s') found = take_seat-Admitted s' c found
  seat_or_queue-Admitted (none, s') (same, all_busy) = rw same (queue_up-Admitted all_busy)

  pub find_seat-Admitted : Returns (sched_thread s g >>= λ r. seat_or_queue g r) (Admitted s g)
  find_seat-Admitted =
      Returns->>= (sched_thread s g) _ (Found s g) (Admitted s g) (sched_thread-Found s g f waits)
        seat_or_queue-Admitted

-- A thread that is out, blocked, or new comes back.
pub come_back-Admitted :
    (s : Scheduler) (g : ℕ)
    → Fits s
    → ((s.threads g).state ≡ out)
      ⊎ (((s.threads g).state ≡ blocked) ⊎ ((s.threads g).state ≡ started))
    → Returns (come_back s g) (Admitted s g)
unfolding come_back
come_back-Admitted s g f (inl was) =
    let here : 0 < occurs g s.out_queue =
      omega (arith, f.queues.outs g, ap (λ x. one_if (is_out x)) was) in
    let now = put_self s.threads g (record (s.threads g) { state = running }) in
    let kept = f.seats.held g (rw was refl) in
    Returns-then (is_out (s.threads g).state) _ _ (Admitted s g) (rw was refl) (
      Returns-assert (on g s.out_queue) _ (Admitted s g) (on-lt g s.out_queue here) (record {
        fits = back-FitsWith [] s g f was;
        outcome = inl (
          ap (λ x. x.state) now,
          ap (λ x. some (joins x.cid)) (sym now),
          rw now (λ b.
              let same : b.0 ≡ g = used_by-injective b.0 g (sym b.1 ∙ kept.1) in
              let run : (s.threads g).state ≡ running =
                subst (λ k. (s.threads k).state ≡ running) same b.2 in
              absurd (ground (arith, ap is_out (sym was ∙ run)))),
        );
        frame =
            put-Frame s _ g (record (s.threads g) { state = running }) refl refl
              (λ u ne. omega arith);
      }))
come_back-Admitted s g f (inr was) =
    let rest : (may_run (s.threads g).state ≡ true)
        × (is_out (s.threads g).state ≡ false)
        × (is_queued (s.threads g).state ≡ false)
        × ((is_blocked (s.threads g).state || is_started (s.threads g).state) ≡ true) =
      elim was [ inl e ↦ rw e (refl, refl, refl, refl) | inr e ↦ rw e (refl, refl, refl, refl) ] in
    Returns-else _ _ _ (Admitted s g) rest.1 (
      Returns-assert (is_blocked (s.threads g).state || is_started (s.threads g).state) _
        (Admitted s g) rest.3
        (find_seat-Admitted s g f rest.0 (ground (arith, f.queues.runs g, rest.2))))
