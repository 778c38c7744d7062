-- ===== src/Sched/Scheduler/Passing.antt =====
-- A context whose thread gives it up: it goes on to the first thread that waits for it, or to the free
-- list. `schedContext` of src/scheduler.h, and the ends of `leave`.
use cache_sim.Sched.Scheduler.Frames.{Frame, put-promise}
use cache_sim.Sched.Scheduler.Seating.{give-FitsWith}
use cache_sim.Sched.Scheduler.Seat.{seated, seat-Fits}
use cache_sim.Sched.Scheduler.Pick.{Option-cases, wakeup_lem, schedule_lem}
use cache_sim.Sched.Scheduler.Lists.{
  put_other, on-zero, first_fit-some, first_fit-none, put_self, erase_le,
}
use cache_sim.Sched.Scheduler.Calls.{give_up, take_over, pass_on}
use cache_sim.Sched.Scheduler.Fits.{Fits, FitsWith}
use cache_sim.Sched.Scheduler.Moves.{dequeue-FitsWith, touch-FitsWith}
use cache_sim.Sched.Barrier.Tally.{one_if, occurs}
use cache_sim.Sched.Barrier.Run.{leaves, Call}
use cache_sim.Base.{
  Returns, done, ℕ, ◌<◌, ◌≡◌, refl, ap, ◌∙◌, ◌≢◌, inl, inr, true, false, Option, none, some, List,
  [], ◌∷◌, ◌++◌, arith, Returns-map, sym, subst, ◌⊎◌, ◌≤◌, ◌≤◌, ◌≤◌, ◌≤◌, ◌≤◌, ◌≤◌, ◌≤◌, ◌≤◌, ◌≤◌,
}
use cache_sim.Sched.Scheduler.{
  is_queued, running, ThreadState, blocked, sched_context, may_run, idle_context, sleeping,
  Scheduler, ThreadInfo, started, queued, out, first_fit, used_by,
}

-- The first thread on the run queue that may have the context is taken off it.
pub record Chosen (limbo : List ℕ) (s : Scheduler) (c h : ℕ) (s' : Scheduler) : Type 0 where
  pub fits : FitsWith limbo s'
  pub waited : 0 < occurs h s.run_queue
  pub allowed : (s.threads h).mask c ≡ true
  pub off : occurs h s'.run_queue ≡ 0
  pub fewer : (u : ℕ) → occurs u s'.run_queue ≤ occurs u s.run_queue
  pub same : s' ≡ record s { run_queue = s'.run_queue }

-- No thread that waits may have the context.
abbrev pub Unwanted : Scheduler → ℕ → Type 0
Unwanted s c = (u : ℕ) → 0 < occurs u s.run_queue → (s.threads u).mask c ≡ false

abbrev pub Picked : List ℕ → Scheduler → ℕ → Option ℕ × Scheduler → Type 0
Picked limbo s c (none, s') = (s' ≡ s) × Unwanted s c
Picked limbo s c (some h, s') = Chosen limbo s c h s'

pub sched_context-Picked :
    (limbo : List ℕ) (s : Scheduler) (c : ℕ)
    → FitsWith limbo s
    → Picked limbo s c (sched_context s c)
unfolding sched_context
sched_context-Picked limbo s c f =
    elim (Option-cases (first_fit (λ g. (s.threads g).mask c) s.run_queue)) [
      | inl e ↦
          rw (e, sched_context)
            (refl, λ u o. first_fit-none (λ g. (s.threads g).mask c) s.run_queue u e o)
      | inr (h, e) ↦
          let r = first_fit-some (λ g. (s.threads g).mask c) s.run_queue h e in
          let d = dequeue-FitsWith limbo s h f r.1 in
          rw (e, sched_context)
            (record {
              fits = d.0;
              waited = r.1;
              allowed = r.0;
              off = d.1;
              fewer = λ u. erase_le h u s.run_queue r.1;
              same = refl;
            })
    ]

pub queued_may_run : (st : ThreadState) → 0 < one_if (is_queued st) → may_run st ≡ true
queued_may_run queued h = refl
queued_may_run started h = absurd (omega arith)
queued_may_run running h = absurd (omega arith)
queued_may_run out h = absurd (omega arith)
queued_may_run blocked h = absurd (omega arith)
queued_may_run sleeping h = absurd (omega arith)

-- The thread `h` has the context `c`, which stays on the barrier, and all other threads are as before.
pub record TakenOver (s : Scheduler) (c h : ℕ) (r : Scheduler × Option Call) : Type 0 where
  pub fits : Fits r.0
  pub has : r.0.contexts c ≡ used_by h
  pub runs : (r.0.threads h).state ≡ running
  pub quiet : r.1 ≡ none
  pub others : (u : ℕ) → u ≢ h → r.0.threads u ≡ s.threads u
  pub promises : (u : ℕ) → (r.0.threads u).handoff_thread ≡ (s.threads u).handoff_thread
  pub same_run : r.0.run_queue ≡ s.run_queue

pub take_over-TakenOver :
    (s : Scheduler) (c h : ℕ)
    → FitsWith (c ∷ []) s
    → s.contexts c ≡ idle_context
    → c < s.num_cores
    → may_run (s.threads h).state ≡ true
    → (s.threads h).futex_word ≡ 1
    → occurs h s.run_queue ≡ 0
    → Returns (take_over s h c) (TakenOver s c h)
unfolding take_over
take_over-TakenOver s c h f was_idle inside waits asleep off =
    let now = put_self s.threads h (record (s.threads h) { state = running; cid = c }) in
    let v : ThreadInfo = record ((seated s h c).threads h) { needs_join = false; futex_word = 0 } in
    rw (schedule_lem s h c waits was_idle, wakeup_lem (seated s h c) h false (rw now asleep))
      (record {
        fits =
            touch-FitsWith [] (seated s h c) h v (seat-Fits s h c f waits off inside was_idle) refl
              refl (λ o. absurd (omega (arith, off, o)));
        has = put_self s.contexts c (used_by h);
        runs = ap (λ x. x.state) (put_self (seated s h c).threads h v) ∙ ap (λ x. x.state) now;
        quiet = refl;
        others = λ u ne. put_other (seated s h c).threads h u v ne ∙ put_other s.threads h u _ ne;
        promises = λ u.
            put-promise (seated s h c).threads h v u refl
            ∙ put-promise s.threads h (record (s.threads h) { state = running; cid = c }) u refl;
        same_run = refl;
      })

-- The context is free, and its barrier is told.
pub give_up_lem :
    (s : Scheduler) (c : ℕ)
    → FitsWith (c ∷ []) s
    → give_up s c ≡ done (record s { free_list = s.free_list ++ (c ∷ []) }, some (leaves c))
unfolding give_up
give_up_lem s c f =
    let off : occurs c s.free_list ≡ 0 = ground (arith, f.seats.vacant c) in
    rw (on-zero c s.free_list off) refl

-- The context went to the first thread that waits for it, or to the free list and off the barrier.
-- Threads that did not wait are as before.
pub record Passed (s : Scheduler) (c : ℕ) (r : Scheduler × Option Call) : Type 0 where
  pub fits : Fits r.0
  pub outcome :
      ((h : ℕ) × (0 < occurs h s.run_queue)
        × ((s.threads h).mask c ≡ true)
        × (r.0.contexts c ≡ used_by h)
        × ((r.0.threads h).state ≡ running)
        × (r.1 ≡ none))
      ⊎ ((r.1 ≡ some (leaves c)) × (r.0.contexts c ≡ idle_context) × Unwanted s c)
  pub others : (u : ℕ) → occurs u s.run_queue ≡ 0 → r.0.threads u ≡ s.threads u
  pub fewer : (u : ℕ) → occurs u r.0.run_queue ≤ occurs u s.run_queue
  pub promises : (u : ℕ) → (r.0.threads u).handoff_thread ≡ (s.threads u).handoff_thread

pub pass_on-Passed :
    (s : Scheduler) (c : ℕ) (r : Option ℕ × Scheduler)
    → FitsWith (c ∷ []) s
    → s.contexts c ≡ idle_context
    → c < s.num_cores
    → Picked (c ∷ []) s c r
    → Returns (pass_on c r) (Passed s c)
pass_on-Passed s c (some h, s') f was_idle inside ch =
    let threads = ap (λ x. x.threads) ch.same in
    let waits : may_run (s.threads h).state ≡ true =
      queued_may_run (s.threads h).state (omega (arith, f.queues.runs h, ch.waited)) in
    Returns-map (take_over s' h c) (TakenOver s' c h) (Passed s c)
      (take_over-TakenOver s' c h ch.fits (ap (λ x. x.contexts c) ch.same ∙ was_idle)
        (rw (ap (λ x. x.num_cores) ch.same) inside) (ap (λ t. may_run (t h).state) threads ∙ waits)
        (ap (λ t. (t h).futex_word) threads ∙ f.queues.armed h ch.waited) ch.off)
      (λ r t. record {
        fits = t.fits;
        outcome = inl (h, ch.waited, ch.allowed, t.has, t.runs, t.quiet);
        others = λ u off.
            let apart : u ≢ h = λ e.
              absurd
                (ground (arith, off, subst (λ k. 0 < occurs k s.run_queue) (sym e) ch.waited)) in
            t.others u apart ∙ ap (λ t. t u) threads;
        fewer = λ u. rw t.same_run (ch.fewer u);
        promises = λ u. t.promises u ∙ ap (λ t. (t u).handoff_thread) threads;
      })
pass_on-Passed s c (none, s') f was_idle inside (same, unwanted) =
    rw (same, give_up_lem s c f)
      (record {
        fits = give-FitsWith (c ∷ []) s c refl f unwanted;
        outcome = inr (refl, was_idle, unwanted);
        others = λ u off. refl;
        fewer = λ u. omega arith;
        promises = λ u. refl;
      })

pub Passed-Frame :
    (s : Scheduler) (c g : ℕ) (r : Scheduler × Option Call) → Passed s c r → Frame s g r.0
Passed-Frame s c g r p = record {
  same = λ u ne n off. p.others u off;
  no_more = λ u ne. p.fewer u;
  promises = p.promises;
}
