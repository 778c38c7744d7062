-- ===== src/Sched/Scheduler/Rests.antt =====
-- The sleeping threads of src/scheduler.h under the events: they stay in the order of their deadlines,
-- none of which has passed, and armed.
use cache_sim.Sched.Scheduler.Sleeps.{Ordered, insert_sleeper-Ordered, Ordered-same}
use cache_sim.Sched.Scheduler.Still.{Still, put-Still, awake}
use cache_sim.Sched.Scheduler.Ends.{Rested}
use cache_sim.Sched.Scheduler.Lists.{put_self, put_other, erase_le}
use cache_sim.Sched.Scheduler.Settled.{
  pass_on-Still, sched_context-Still, leave_lazily-Still, come_back-Still,
}
use cache_sim.Sched.Barrier.Tally.{occurs}
use cache_sim.Sched.Scheduler.Calls.{
  leave, join, deadlines, leave_to_sleep, come_back, end_sleep, insert_sleeper, pass_on,
  leave_lazily,
}
use cache_sim.Sched.Scheduler.{
  is_running, is_used, erase, is_thread, deschedule, holds, ThreadInfo, sleeping, Scheduler,
  blocked, is_sleeping, on, unlinked, sched_context, set_thread,
}
use cache_sim.Base.{
  Bool-cases, ◌==◌, Ensures->>=, done, Ensures, Ensures-map, Ensures-then, Ensures-else, Outcome,
  Ensures-assert, ℕ, ◌<◌, ◌≡◌, refl, sym, ap, subst, ◌∙◌, ◌≢◌, inl, inr, true, false, not, List, [],
  ◌∷◌, arith, ℕ_discrete,
}

pub Rested-Still : (s s' : Scheduler) → Rested s → Still s s' → Rested s'
Rested-Still s s' rest st = record {
  ordered = subst (Ordered (deadlines s')) (sym st.same_queue) (
      Ordered-same (deadlines s) (deadlines s') s.sleep_queue (λ u h. sym (st.same_deadline u))
        rest.ordered);
  armed = λ g e.
      let a = st.asleep g e in
      let b = rest.armed g a.0 in
      (omega (arith, b.0, st.same_phase, st.same_deadline g), a.1 ∙ b.1);
  in_step = st.same_phase ∙ rest.in_step ∙ sym st.same_count;
}

pub Ensures-Rested :
    {A : Type 0} (at : A → Scheduler) (s : Scheduler) (m : Outcome A)
    → Rested s
    → Ensures m (λ r. Still s (at r))
    → Ensures m (λ r. Rested (at r))
Ensures-Rested at s m rest e =
    Ensures-map m (λ r. Still s (at r)) (λ r. Rested (at r)) e
      (λ r st. Rested-Still s (at r) rest st)

erase-Ordered :
    (w : ℕ → ℕ) (g : ℕ) (xs : List ℕ) → 0 < occurs g xs → Ordered w xs → Ordered w (erase g xs)
erase-Ordered w g [] here o = absurd (omega (arith, here))
erase-Ordered w g (x ∷ xs) here (first, o) = elim (Bool-cases (x == g)) [
  | inl y ↦ rw y o
  | inr n ↦
      let later : 0 < occurs g xs = ground (arith, here, n) in
      rw n
        ((λ u h. first u (omega (arith, h, erase_le g u xs later))), erase-Ordered w g xs later o)
]

-- A sleep that ends early.
pub end_sleep-Rested : (s : Scheduler) (g : ℕ) → Rested s → Ensures (end_sleep s g) Rested
unfolding end_sleep
end_sleep-Rested s g rest = elim (Bool-cases (is_sleeping (s.threads g).state)) [
  | inr n ↦ Ensures-else (is_sleeping (s.threads g).state) _ (done s) Rested n rest
  | inl y ↦ Ensures-then (is_sleeping (s.threads g).state) _ (done s) Rested y (
      Ensures-assert (on g s.sleep_queue) _ Rested λ a.
        let here : 0 < occurs g s.sleep_queue = ground (arith, a) in
        let s0 = record s { sleep_queue = erase g s.sleep_queue } in
        let rest0 : Rested s0 = record {
          ordered = erase-Ordered (deadlines s) g s.sleep_queue here rest.ordered;
          armed = rest.armed;
          in_step = rest.in_step;
        } in
        Rested-Still s0 _ rest0 (
          put-Still s0 _ g (record (s.threads g) { state = blocked }) refl refl refl refl refl
            (λ z. absurd (awake blocked refl z))))
]

pub join-Rested : (s : Scheduler) (g : ℕ) → Rested s → Ensures (join s g) (λ r. Rested r.0)
unfolding join
join-Rested s g rest =
    Ensures-assert (s.known g) _ (λ r. Rested r.0)
      λ a.
        Ensures-assert (not (s.threads g).marked_for_sleep) _ (λ r. Rested r.0)
          λ b.
            Ensures->>= (end_sleep s g) _ Rested (λ r. Rested r.0) (end_sleep-Rested s g rest)
              (λ s' rest'.
                Ensures-Rested (λ q. q.0) s' (come_back s' g) rest' (come_back-Still s' g))

-- The thread whose sleep begins.
record FallsAsleep (s : Scheduler) (g : ℕ) (s1 : Scheduler) : Type 0 where
  same_queue : s1.sleep_queue ≡ s.sleep_queue
  same_phase : s1.cur_phase ≡ s.cur_phase
  same_count : s1.num_phases ≡ s.num_phases
  others : (u : ℕ) → u ≢ g → s1.threads u ≡ s.threads u
  deadline : (s1.threads g).wakeup_phase ≡ (s.threads g).wakeup_phase
  futex : (s1.threads g).futex_word ≡ (s.threads g).futex_word

deschedule-FallsAsleep :
    (s : Scheduler) (g c : ℕ)
    → Ensures
        (deschedule
          (set_thread s g (record (s.threads g) { marked_for_sleep = false }))
          g
          c
          sleeping)
        (FallsAsleep s g)
unfolding deschedule
deschedule-FallsAsleep s g c =
    let v0 : ThreadInfo = record (s.threads g) { marked_for_sleep = false } in
    let s0 = set_thread s g v0 in
    let v : ThreadInfo = record (s0.threads g) { state = sleeping } in
    let self = put_self s0.threads g v in
    let self0 = put_self s.threads g v0 in
    Ensures-assert (holds (s0.threads g).state) _ (FallsAsleep s g) λ a.
      Ensures-assert (is_used (s.contexts c).state) _ (FallsAsleep s g) λ b.
        Ensures-assert (c == (s0.threads g).cid) _ (FallsAsleep s g) λ d.
          Ensures-assert (is_thread (s.contexts c).cur_thread g) _ (FallsAsleep s g) λ e. record {
            same_queue = refl;
            same_phase = refl;
            same_count = refl;
            others = λ u ne. put_other s0.threads g u v ne ∙ put_other s.threads g u v0 ne;
            deadline = ap (λ x. x.wakeup_phase) self ∙ ap (λ x. x.wakeup_phase) self0;
            futex = ap (λ x. x.futex_word) self ∙ ap (λ x. x.futex_word) self0;
          }

fallen-Rested :
    (s : Scheduler) (g : ℕ) (s1 : Scheduler)
    → Rested s
    → s.cur_phase < (s.threads g).wakeup_phase
    → (s.threads g).futex_word ≡ 1
    → FallsAsleep s g s1
    → Rested (record s1 { sleep_queue = insert_sleeper (deadlines s1) g s1.sleep_queue })
fallen-Rested s g s1 rest early armed fa =
    let same : (u : ℕ) → deadlines s u ≡ deadlines s1 u = λ u. elim (ℕ_discrete u g) [
      | yes e ↦ ap (deadlines s) e ∙ sym fa.deadline ∙ ap (deadlines s1) (sym e)
      | no ne ↦ ap (λ x. x.wakeup_phase) (sym (fa.others u ne))
    ] in
    record {
      ordered = insert_sleeper-Ordered (deadlines s1) g s1.sleep_queue (
          subst (Ordered (deadlines s1)) (sym fa.same_queue)
            (Ordered-same (deadlines s) (deadlines s1) s.sleep_queue (λ u h. same u) rest.ordered));
      armed = λ u e. elim (ℕ_discrete u g) [
        | yes here ↦ (
          omega (arith, early, fa.same_phase, same u, ap (deadlines s) here),
          ap (λ k. (s1.threads k).futex_word) here ∙ fa.futex ∙ armed,
        )
        | no ne ↦
            let th = fa.others u ne in
            let b = rest.armed u (ap (λ x. x.state) (sym th) ∙ e) in
            (omega (arith, b.0, fa.same_phase, same u), ap (λ x. x.futex_word) th ∙ b.1)
      ];
      in_step = fa.same_phase ∙ rest.in_step ∙ sym fa.same_count;
    }

leave_to_sleep-Rested :
    (s : Scheduler) (g c : ℕ)
    → Rested s
    → s.cur_phase < (s.threads g).wakeup_phase
    → (s.threads g).futex_word ≡ 1
    → Ensures (leave_to_sleep s g c) (λ r. Rested r.0)
unfolding leave_to_sleep
leave_to_sleep-Rested s g c rest early armed =
    Ensures->>=
      (deschedule (set_thread s g (record (s.threads g) { marked_for_sleep = false })) g c sleeping)
      _ (FallsAsleep s g) (λ r. Rested r.0) (deschedule-FallsAsleep s g c)
      (λ s1 fa.
        let s2 = record s1 { sleep_queue = insert_sleeper (deadlines s1) g s1.sleep_queue } in
        let r = sched_context s2 c in
        Ensures-assert (unlinked s1 g) _ (λ r. Rested r.0)
          λ a.
            Ensures-Rested (λ q. q.0) r.1 (pass_on c r)
              (Rested-Still s2 r.1 (fallen-Rested s g s1 rest early armed fa)
                (sched_context-Still s2 c))
              (pass_on-Still c r))

pub leave-Rested :
    (s : Scheduler) (g c : ℕ)
    → Rested s
    → ((s.threads g).marked_for_sleep ≡ true
        → (s.cur_phase < (s.threads g).wakeup_phase) × ((s.threads g).futex_word ≡ 1))
    → Ensures (leave s g c) (λ r. Rested r.0)
unfolding leave
leave-Rested s g c rest early =
    Ensures-assert (is_thread (s.contexts c).cur_thread g) _ (λ r. Rested r.0)
      λ a.
        Ensures-assert (is_running (s.threads g).state) _ (λ r. Rested r.0)
          λ b. elim (Bool-cases (s.threads g).marked_for_sleep) [
            | inl y ↦
                Ensures-then (s.threads g).marked_for_sleep _ _ (λ r. Rested r.0) y
                  (leave_to_sleep-Rested s g c rest (early y).0 (early y).1)
            | inr n ↦
                let r = sched_context s c in
                Ensures-else (s.threads g).marked_for_sleep _ _ (λ r. Rested r.0) n
                  (Ensures-Rested (λ q. q.0) r.1 (leave_lazily g c r)
                    (Rested-Still s r.1 rest (sched_context-Still s c)) (leave_lazily-Still g c r))
          ]
