-- ===== src/Sched/Scheduler/Deadlines.antt =====
-- Each permitted event of a scheduler keeps its sleeping threads in the order of their deadlines.
-- A running thread is marked: it is not on the queue of those that sleep.
use cache_sim.Sched.Scheduler.Sleeps.{Ordered-same}
use cache_sim.Sched.Scheduler.Still.{awake, put-Still}
use cache_sim.Sched.Scheduler.Rests.{
  join-Rested, Rested-Still, leave-Rested, end_sleep-Rested, Ensures-Rested,
}
use cache_sim.Sched.Scheduler.Phase.{update_mask, notify_sleep_end, mark_for_sleep, callback}
use cache_sim.Sched.Scheduler.Ends.{Rested, callback-PhaseEnded, PhaseEnded}
use cache_sim.Sched.Scheduler.Lists.{put_self, put_other}
use cache_sim.Sched.Scheduler.Settled.{handoff_to-Still}
use cache_sim.Sched.Scheduler.Calls.{handoff, any_core, deadlines, handoff_to}
use cache_sim.Sched.Scheduler.Fits.{Fits}
use cache_sim.Sched.Barrier.Tally.{one_if, occurs}
use cache_sim.Sched.Scheduler.{running, Scheduler, set_thread, ThreadInfo, is_sleeping, is_blocked}
use cache_sim.Sched.Scheduler.Events.{
  Event, goes, ends, hands, comes, occur, Permitted, quietly, rouses, marks, remasks,
}
use cache_sim.Base.{
  Bool-cases, Returns, Ensures-then, Outcome, Ensures-else, Ensures-assert, Ensures, failed, done,
  ℕ, ◌<◌, ◌≡◌, refl, sym, ap, ◌∙◌, ◌≢◌, inl, inr, Bool, true, not, ◌||◌, arith, ℕ_discrete,
}

marks-Rested :
    (s : Scheduler) (g phase : ℕ)
    → Fits s
    → Rested s
    → (s.threads g).state ≡ running
    → Ensures (mark_for_sleep s g phase) Rested
unfolding mark_for_sleep
marks-Rested s g phase f rest run =
    let v : ThreadInfo = record (s.threads g) {
      marked_for_sleep = true;
      wakeup_phase = phase;
      futex_word = 1;
    } in
    let s1 = set_thread s g v in
    let absent : occurs g s.sleep_queue ≡ 0 =
      omega (arith, f.queues.sleeps g, ap (λ x. one_if (is_sleeping x)) run) in
    let other : (u : ℕ) → 0 < occurs u s.sleep_queue → u ≢ g =
      λ u h e. absurd (omega (arith, h, absent, ap (λ k. occurs k s.sleep_queue) e)) in
    Ensures-assert (s.known g) _ Rested λ a.
      Ensures-assert (not (s.threads g).marked_for_sleep) _ Rested λ b. record {
        ordered =
            Ordered-same (deadlines s) (deadlines s1) s.sleep_queue
              (λ u h. ap (λ x. x.wakeup_phase) (sym (put_other s.threads g u v (other u h))))
              rest.ordered;
        armed = λ u e. elim (ℕ_discrete u g) [
          | yes same ↦
              let st : (s1.threads u).state ≡ running =
                ap (λ k. (s1.threads k).state) same
                ∙ ap (λ x. x.state) (put_self s.threads g v)
                ∙ run in
              absurd (awake (s1.threads u).state (rw st refl) e)
          | no ne ↦
              let th : s1.threads u ≡ s.threads u = put_other s.threads g u v ne in
              let r = rest.armed u (ap (λ x. x.state) (sym th) ∙ e) in
              (omega (arith, r.0, ap (λ x. x.wakeup_phase) th), ap (λ x. x.futex_word) th ∙ r.1)
        ];
        in_step = rest.in_step;
      }

rouses-Rested : (s : Scheduler) (g : ℕ) → Rested s → Ensures (notify_sleep_end s g) Rested
unfolding notify_sleep_end
rouses-Rested s g rest = Ensures-assert (s.known g) _ Rested λ a.
    Ensures-assert (not (s.threads g).marked_for_sleep) _ Rested λ b.
      Ensures-assert (is_sleeping (s.threads g).state || is_blocked (s.threads g).state) _ Rested
        λ c. elim (Bool-cases (is_blocked (s.threads g).state)) [
          | inl y ↦ Ensures-then (is_blocked (s.threads g).state) _ _ Rested y rest
          | inr n ↦
              Ensures-else (is_blocked (s.threads g).state) _ _ Rested n (end_sleep-Rested s g rest)
        ]

remasks-Rested :
    (s : Scheduler) (g : ℕ) (mask : ℕ → Bool) → Rested s → Ensures (update_mask s g mask) Rested
unfolding update_mask
remasks-Rested s g mask rest =
    let v : ThreadInfo = record (s.threads g) { mask = mask } in
    elim (Bool-cases (s.known g)) [
      | inr n ↦ Ensures-else (s.known g) _ _ Rested n rest
      | inl y ↦ Ensures-then (s.known g) _ _ Rested y (
          Ensures-assert (any_core mask s.num_cores) _ Rested λ a.
            Rested-Still s _ rest
              (put-Still s (set_thread s g v) g v refl refl refl refl refl (λ z. (z, refl))))
    ]

handoff-Rested : (s : Scheduler) (g : ℕ) → Rested s → Ensures (handoff s g) (λ r. Rested r.0)
unfolding handoff
handoff-Rested s g rest =
    Ensures-Rested (λ q. q.0) s (handoff_to s g (s.threads g).handoff_thread) rest
      (handoff_to-Still s g (s.threads g).handoff_thread)

quietly-Rested : (m : Outcome Scheduler) → Ensures m Rested → Ensures (quietly m) (λ r. Rested r.0)
quietly-Rested (done s) e = e
quietly-Rested failed e = tt

callback-Rested :
    (m : Outcome Scheduler) (s : Scheduler) → Returns m (PhaseEnded s) → Ensures m Rested
callback-Rested (done s') s e = e.rested
callback-Rested failed s e = tt

pub occur-Rested :
    (s : Scheduler) (e : Event)
    → Fits s
    → Rested s
    → Permitted s e
    → Ensures (occur s e) (λ r. Rested r.0)
occur-Rested s (comes g) f rest may = join-Rested s g rest
occur-Rested s (goes g) f rest (run, early) = leave-Rested s g (s.threads g).cid rest early
occur-Rested s (hands g) f rest run = handoff-Rested s g rest
occur-Rested s (marks g phase) f rest (known, unmarked, run) =
    quietly-Rested (mark_for_sleep s g phase) (marks-Rested s g phase f rest run)
occur-Rested s (rouses g) f rest may =
    quietly-Rested (notify_sleep_end s g) (rouses-Rested s g rest)
occur-Rested s (remasks g mask) f rest may =
    quietly-Rested (update_mask s g mask) (remasks-Rested s g mask rest)
occur-Rested s (ends draw) f rest (fair, few) =
    quietly-Rested (callback draw s)
      (callback-Rested (callback draw s) s (callback-PhaseEnded s f rest few draw fair))
