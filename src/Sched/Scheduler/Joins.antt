-- ===== src/Sched/Scheduler/Joins.antt =====
-- What `join` of src/scheduler.h does to a scheduler that fits.
-- The early end of a sleep changes nothing for the contexts.
use cache_sim.Sched.Scheduler.Frames.{Frame-trans, put-Frame, Frame}
use cache_sim.Sched.Scheduler.Lists.{put_other, erase_self, erase_other, put_self, on-lt}
use cache_sim.Sched.Scheduler.Switches.{wake-FitsWith}
use cache_sim.Sched.Scheduler.Fits.{Busy, Fits}
use cache_sim.Sched.Barrier.Tally.{one_if, occurs}
use cache_sim.Sched.Barrier.Run.{Call}
use cache_sim.Sched.Scheduler.Comeback.{Admitted, come_back-Admitted}
use cache_sim.Sched.Scheduler.Calls.{join, come_back, end_sleep}
use cache_sim.Sched.Scheduler.{
  running, is_running, ThreadState, started, set_state, is_sleeping, Scheduler, erase, sleeping,
  out, blocked,
}
use cache_sim.Base.{
  Returns, Returns-map, done, ◌>>=◌, Returns-assert, ℕ, ◌<◌, ◌≡◌, refl, sym, ap, subst, ◌∙◌, ◌⊎◌,
  inl, inr, true, false, not, Option, [], arith, ℕ_discrete,
}

module _ (s : Scheduler) (g : ℕ) (was : (s.threads g).state ≡ sleeping) where
  woken : Scheduler
  woken = record (set_state s g blocked) { sleep_queue = erase g s.sleep_queue }

  woken-Fits : Fits s → Fits woken
  unfolding woken
  woken-Fits f =
      let once : occurs g s.sleep_queue ≡ 1 =
        omega (arith, f.queues.sleeps g, ap (λ x. one_if (is_sleeping x)) was) in
      wake-FitsWith [] s g (record (s.threads g) { state = blocked }) (erase g s.sleep_queue) f was
        refl refl (λ u ne. erase_other g u s.sleep_queue ne)
        (omega (arith, once, erase_self g s.sleep_queue (omega (arith, once))))

  woken-Busy : (c : ℕ) → Busy s.threads s.contexts c → Busy woken.threads woken.contexts c
  unfolding woken
  woken-Busy c b = (
    b.0,
    b.1,
    elim (ℕ_discrete b.0 g) [
      | yes e ↦
          let run : (s.threads g).state ≡ running =
            subst (λ k. (s.threads k).state ≡ running) e b.2 in
          absurd (ground (arith, ap is_running (sym was ∙ run)))
      | no ne ↦ rw (put_other s.threads g b.0 _ ne) b.2
    ],
  )

  Busy-woken : (c : ℕ) → Busy woken.threads woken.contexts c → Busy s.threads s.contexts c
  unfolding woken
  Busy-woken c b = (
    b.0,
    b.1,
    elim (ℕ_discrete b.0 g) [
      | yes e ↦
          let run : blocked ≡ running =
            ap (λ x. x.state)
              (sym (put_self s.threads g (record (s.threads g) { state = blocked })))
            ∙ subst (λ k. (woken.threads k).state ≡ running) e b.2 in
          absurd (ground (arith, ap is_running run))
      | no ne ↦ subst (λ x. x.state ≡ running) (put_other s.threads g b.0 _ ne) b.2
    ],
  )

  woken_mask : (c : ℕ) → (s.threads g).mask c ≡ true → (woken.threads g).mask c ≡ true
  unfolding woken
  woken_mask c ok = ground (arith, ok)

  woken-Admitted : (r : Scheduler × Option Call) → Admitted woken g r → Admitted s g r
  unfolding woken
  woken-Admitted r j = record {
    fits = j.fits;
    frame =
        Frame-trans s woken r.0 g
          (put-Frame s woken g (record (s.threads g) { state = blocked }) refl refl
            (λ u ne. omega arith))
          j.frame;
    outcome = elim j.outcome [
      | inl (run, told, none_runs) ↦ inl (run, told, λ b. none_runs (woken-Busy _ b))
      | inr (waits, told, on_queue, all_busy) ↦
          inr (
            waits,
            told,
            on_queue,
            λ c inside ok. Busy-woken c (all_busy c inside (woken_mask c ok)),
          )
    ];
  }

  sleeping-Admitted : Fits s → Returns (end_sleep s g >>= λ s'. come_back s' g) (Admitted s g)
  unfolding end_sleep woken
  sleeping-Admitted f =
      let here : 0 < occurs g s.sleep_queue =
        omega (arith, f.queues.sleeps g, ap (λ x. one_if (is_sleeping x)) was) in
      rw (was, on-lt g s.sleep_queue here)
        (Returns-map (come_back woken g) (Admitted woken g) (Admitted s g)
          (come_back-Admitted woken g (woken-Fits f)
            (inr (inl (ap (λ x. x.state) (put_self s.threads g _)))))
          woken-Admitted)

  -- A thread whose sleep ends.
  pub end_sleep-Frame : Fits s → Returns (end_sleep s g) (λ s'. Fits s' × Frame s g s')
  unfolding end_sleep woken
  end_sleep-Frame f =
      let here : 0 < occurs g s.sleep_queue =
        omega (arith, f.queues.sleeps g, ap (λ x. one_if (is_sleeping x)) was) in
      rw (was, on-lt g s.sleep_queue here)
        (
          woken-Fits f,
          put-Frame s woken g (record (s.threads g) { state = blocked }) refl refl
              (λ u ne. omega arith),
        )

end_sleep_awake :
    (s : Scheduler) (g : ℕ) → is_sleeping (s.threads g).state ≡ false → end_sleep s g ≡ done s
unfolding end_sleep
end_sleep_awake s g n = rw n refl

-- The states in which a thread calls `join`.
abbrev pub Away : ThreadState → Type 0
Away st = (st ≡ out) ⊎ ((st ≡ blocked) ⊎ ((st ≡ started) ⊎ (st ≡ sleeping)))

pub join-Admitted :
    (s : Scheduler) (g : ℕ)
    → Fits s
    → s.known g ≡ true
    → (s.threads g).marked_for_sleep ≡ false
    → Away (s.threads g).state
    → Returns (join s g) (Admitted s g)
unfolding join
join-Admitted s g f known unmarked away = Returns-assert (s.known g) _ (Admitted s g) known (
    Returns-assert (not (s.threads g).marked_for_sleep) _ (Admitted s g) (rw unmarked refl)
      (elim away [
        | inl e ↦ awake (rw e refl) (inl e)
        | inr (inl e) ↦ awake (rw e refl) (inr (inl e))
        | inr (inr (inl e)) ↦ awake (rw e refl) (inr (inr e))
        | inr (inr (inr e)) ↦ sleeping-Admitted s g e f
      ]))
  where
    awake :
        is_sleeping (s.threads g).state ≡ false
        → ((s.threads g).state ≡ out)
          ⊎ (((s.threads g).state ≡ blocked) ⊎ ((s.threads g).state ≡ started))
        → Returns (end_sleep s g >>= λ s'. come_back s' g) (Admitted s g)
    awake n e = rw (end_sleep_awake s g n) (come_back-Admitted s g f e)
