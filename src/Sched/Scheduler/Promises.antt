-- ===== src/Sched/Scheduler/Promises.antt =====
-- The contexts that running threads are asked to hand over.
use cache_sim.Base.{ℕ, ◌<◌, ◌≡◌, refl, sym, ap, subst, ◌∙◌, ◌≢◌, some, arith, ℕ_discrete}
use cache_sim.Sched.Scheduler.Frames.{Frame}
use cache_sim.Sched.Scheduler.Lists.{put_other, erase_self, erase_le, put_self}
use cache_sim.Sched.Scheduler.Fits.{Queues}
use cache_sim.Sched.Barrier.Tally.{occurs, one_if}
use cache_sim.Sched.Scheduler.{
  is_queued, ThreadState, running, erase, ThreadInfo, put, queued, started, blocked, Scheduler,
  sleeping, out,
}

-- A thread that is promised a context waits, off the run queue, and only one thread promised it.
pub record Promises (s : Scheduler) : Type 0 where
  pub waits :
      (v u : ℕ)
      → (s.threads v).handoff_thread ≡ some u
      → ((s.threads u).state ≡ queued) × ((s.threads u).futex_word ≡ 1) × (occurs u s.run_queue ≡ 0)
  pub sole :
      (v w u : ℕ)
      → (s.threads v).handoff_thread ≡ some u
      → (s.threads w).handoff_thread ≡ some u
      → v ≡ w

-- A call for a thread that is promised nothing.
pub Frame-Promises :
    (s s' : Scheduler) (g : ℕ)
    → Promises s
    → Frame s g s'
    → ((s.threads g).state ≡ queued → occurs g s.run_queue ≡ 0 → ⊥)
    → Promises s'
Frame-Promises s s' g p f free = record {
  waits = λ v u e.
      let w = p.waits v u (sym (f.promises v) ∙ e) in
      let other : u ≢ g = λ same.
        free (subst (λ k. (s.threads k).state ≡ queued) same w.0)
          (subst (λ k. occurs k s.run_queue ≡ 0) same w.2) in
      let th = f.same u other (rw w.0 refl) w.2 in
      (
        ap (λ x. x.state) th ∙ w.0,
        ap (λ x. x.futex_word) th ∙ w.1,
        omega (arith, f.no_more u other, w.2),
      );
  sole = λ v w u e e'. p.sole v w u (sym (f.promises v) ∙ e) (sym (f.promises w) ∙ e');
}

some-injective : (g u : ℕ) → some g ≡ some u → g ≡ u
some-injective g u e = cc

state_queued : (st : ThreadState) → 0 < one_if (is_queued st) → st ≡ queued
state_queued queued h = refl
state_queued started h = absurd (omega arith)
state_queued running h = absurd (omega arith)
state_queued out h = absurd (omega arith)
state_queued blocked h = absurd (omega arith)
state_queued sleeping h = absurd (omega arith)

-- A running thread is asked to hand its context to a thread that is taken off the run queue.
pub put-Promises :
    (s : Scheduler) (v g : ℕ)
    → Queues s.threads s.run_queue s.out_queue s.sleep_queue
    → 0 < occurs g s.run_queue
    → Promises s
    → Promises (record s {
      threads = put s.threads v (record (s.threads v) { handoff_thread = some g });
      run_queue = erase g s.run_queue;
    })
put-Promises s v g q waited p =
    let th : ThreadInfo = record (s.threads v) { handoff_thread = some g } in
    let ts = put s.threads v th in
    let state : (u : ℕ) → (ts u).state ≡ (s.threads u).state = λ u. elim (ℕ_discrete u v) [
      | yes e ↦ rw (e, put_self s.threads v th) refl
      | no ne ↦ ap (λ x. x.state) (put_other s.threads v u th ne)
    ] in
    let futex : (u : ℕ) → (ts u).futex_word ≡ (s.threads u).futex_word = λ u.
      elim (ℕ_discrete u v) [
        | yes e ↦ rw (e, put_self s.threads v th) refl
        | no ne ↦ ap (λ x. x.futex_word) (put_other s.threads v u th ne)
      ] in
    let mine : (u : ℕ) → (ts v).handoff_thread ≡ some u → g ≡ u =
      λ u e. some-injective g u (sym (ap (λ x. x.handoff_thread) (put_self s.threads v th)) ∙ e) in
    let old : (w u : ℕ)
        → w ≢ v
        → (ts w).handoff_thread ≡ some u
        → (s.threads w).handoff_thread ≡ some u =
      λ w u ne e. sym (ap (λ x. x.handoff_thread) (put_other s.threads v w th ne)) ∙ e in
    let new : (w : ℕ) → (s.threads w).handoff_thread ≡ some g → ⊥ =
      λ w e. absurd (omega (arith, waited, (p.waits w g e).2)) in
    record {
      waits = λ w u e. elim (ℕ_discrete w v) [
        | yes same ↦
            let it : g ≡ u = mine u (subst (λ k. (ts k).handoff_thread ≡ some u) same e) in
            subst
              (λ k.
                ((ts k).state ≡ queued)
                × ((ts k).futex_word ≡ 1)
                × (occurs k (erase g s.run_queue) ≡ 0))
              it
              (
                state g ∙ state_queued (s.threads g).state (omega (arith, q.runs g, waited)),
                futex g ∙ q.armed g waited,
                ground (arith, erase_self g s.run_queue waited, q.runs g),
              )
        | no ne ↦
            let a = p.waits w u (old w u ne e) in
            (state u ∙ a.0, futex u ∙ a.1, omega (arith, erase_le g u s.run_queue waited, a.2))
      ];
      sole = λ w w' u e e'. elim (ℕ_discrete w v) [
        | yes same ↦
            let it : g ≡ u = mine u (subst (λ k. (ts k).handoff_thread ≡ some u) same e) in
            elim (ℕ_discrete w' v) [
              | yes same' ↦ same ∙ sym same'
              | no ne' ↦ absurd (new w' (old w' u ne' e' ∙ ap some (sym it)))
            ]
        | no ne ↦ elim (ℕ_discrete w' v) [
          | yes same' ↦
              let it : g ≡ u = mine u (subst (λ k. (ts k).handoff_thread ≡ some u) same' e') in
              absurd (new w (old w u ne e ∙ ap some (sym it)))
          | no ne' ↦ p.sole w w' u (old w u ne e) (old w' u ne' e')
        ]
      ];
    }
