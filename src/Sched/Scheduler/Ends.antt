-- ===== src/Sched/Scheduler/Ends.antt =====
-- What `callback` of src/scheduler.h does to a scheduler that fits: the end of a phase.
use cache_sim.Sched.Scheduler.Promises.{Promises}
use cache_sim.Sched.Scheduler.Lists.{length-range_from}
use cache_sim.Sched.Scheduler.Ticks.{Ticked, sched_tick-Ticked}
use cache_sim.Sched.Scheduler.Phase.{wake_sleepers, sched_tick, no_one, callback}
use cache_sim.Sched.Scheduler.Calls.{deadlines}
use cache_sim.Sched.Scheduler.Fits.{Fits}
use cache_sim.Sched.Barrier.Tally.{occurs, one_if, count-le_length}
use cache_sim.Sched.Scheduler.Sleeps.{
  Woken, Ordered-same, state_sleeping, wake_sleepers-Woken, Ordered,
}
use cache_sim.Sched.Scheduler.{
  running, blocked, used_by, Scheduler, sleeping, is_sleeping, is_queued, ThreadState, is_running,
  queued, range_from, out, started, is_used,
}
use cache_sim.Base.{
  Bool-cases, leb, Returns, ℕ, ◌+◌, ◌%◌, ◌^◌, ◌<◌, ◌≡◌, refl, sym, ap, ◌∙◌, inl, inr, true, some,
  arith, ◌==◌, le→leb, Returns->>=, Returns-then, Returns-assert, Returns-else, Returns-if,
  Returns-map, ◌≤◌, false, List,
}

-- What holds of the sleeping threads between two phases: no deadline has passed, and each sleeps on its
-- futex.
pub record Rested (s : Scheduler) : Type 0 where
  pub ordered : Ordered (deadlines s) s.sleep_queue
  pub armed :
      (g : ℕ)
      → (s.threads g).state ≡ sleeping
      → (s.cur_phase < (s.threads g).wakeup_phase) × ((s.threads g).futex_word ≡ 1)
  pub in_step : s.cur_phase ≡ s.num_phases

pub record PhaseEnded (s s' : Scheduler) : Type 0 where
  pub fits : Fits s'
  pub rested : Rested s'
  pub next_phase : s'.cur_phase ≡ s.cur_phase + 1
  pub promised : Promises s → Promises s'
  pub same_contexts : s'.contexts ≡ s.contexts
  pub woken :
      (g : ℕ)
      → (s.threads g).state ≡ sleeping
      → (s.threads g).wakeup_phase ≡ s.cur_phase + 1
      → ((s'.threads g).state ≡ blocked) × ((s'.threads g).futex_word ≡ 0)
  pub others :
      (g : ℕ)
      → ((s.threads g).state ≡ sleeping → s.cur_phase + 1 < (s.threads g).wakeup_phase)
      → (s'.threads g).state ≡ (s.threads g).state
  pub heirs :
      (u : ℕ)
      → 0 < occurs u s.run_queue
      → occurs u s'.run_queue ≡ 0
      → (v : ℕ) × (c : ℕ) × (s.contexts c ≡ used_by v)
        × ((s.threads v).state ≡ running)
        × ((s'.threads v).handoff_thread ≡ some u)
        × ((s.threads u).mask c ≡ true)

queued_awake : (st : ThreadState) → 0 < one_if (is_queued st) → is_sleeping st ≡ false
queued_awake queued h = refl
queued_awake started h = refl
queued_awake running h = refl
queued_awake out h = refl
queued_awake blocked h = refl
queued_awake sleeping h = absurd (omega arith)

module _ (s : Scheduler) (f : Fits s) (rest : Rested s) (few : s.cur_phase + 1 < 2 ^ 64) where
  abbrev pub begun : Scheduler
  begun = record s {
    num_phases = (s.num_phases + 1) % 2 ^ 64;
    cur_phase = (s.cur_phase + 1) % 2 ^ 64;
  }

  begun-cur : begun.cur_phase ≡ s.cur_phase + 1
  begun-cur = omega (arith, few)

  begun-Fits : Fits begun
  begun-Fits = record {
    queues = f.queues;
    seats = f.seats;
    served = f.served;
    in_range = f.in_range;
    small = f.small;
  }

  pub all_woken : Returns (wake_sleepers begun.sleep_queue begun) (Woken (deadlines s) begun)
  all_woken =
      wake_sleepers-Woken (deadlines s) s.sleep_queue begun begun-Fits refl rest.ordered (λ u. refl)
        (λ u st. (omega (arith, begun-cur, rest.armed u st), (rest.armed u st).1))

  -- A thread that still sleeps slept before, and its deadline is later.
  still_asleep :
      (s2 : Scheduler)
      → Woken (deadlines s) begun s2
      → (g : ℕ) → (s2.threads g).state ≡ sleeping
      → (s.cur_phase + 1 < (s.threads g).wakeup_phase)
        × (s2.threads g ≡ s.threads g)
        × ((s.threads g).state ≡ sleeping)
  still_asleep s2 t g st = elim (Bool-cases (is_sleeping (s.threads g).state)) [
    | inl y ↦ elim (Bool-cases (leb (s.threads g).wakeup_phase begun.cur_phase)) [
      | inl due ↦
          let same = t.woken g (state_sleeping (s.threads g).state y) (ground (arith, due)) in
          absurd (ground (arith, ap is_sleeping (sym (ap (λ x. x.state) same) ∙ st)))
      | inr n ↦
          let late : begun.cur_phase < (s.threads g).wakeup_phase = ground (arith, n) in
          (
            omega (arith, late, begun-cur),
            t.others g (λ a. late),
            state_sleeping (s.threads g).state y,
          )
    ]
    | inr n ↦
        let same = t.others g (λ a. absurd (ground (arith, n, ap is_sleeping a))) in
        absurd (ground (arith, n, ap is_sleeping (sym (ap (λ x. x.state) same) ∙ st)))
  ]

  -- A thread that does not sleep is as before.
  awake_same :
      (s2 : Scheduler)
      → Woken (deadlines s) begun s2
      → (g : ℕ) → is_sleeping (s.threads g).state ≡ false
      → s2.threads g ≡ s.threads g
  awake_same s2 t g n = t.others g (λ a. absurd (ground (arith, n, ap is_sleeping a)))

  kept-promise :
      (s2 : Scheduler)
      → Woken (deadlines s) begun s2
      → (g : ℕ) → (s2.threads g).handoff_thread ≡ (s.threads g).handoff_thread
  kept-promise s2 t g = elim (Bool-cases (is_sleeping (s.threads g).state)) [
    | inr n ↦ ap (λ x. x.handoff_thread) (awake_same s2 t g n)
    | inl y ↦ elim (Bool-cases (leb (s.threads g).wakeup_phase begun.cur_phase)) [
      | inl due ↦
          ap (λ x. x.handoff_thread)
            (t.woken g (state_sleeping (s.threads g).state y) (ground (arith, due)))
      | inr n ↦ ap (λ x. x.handoff_thread) (t.others g (λ a. ground (arith, n)))
    ]
  ]

  woken-Promises : (s2 : Scheduler) → Woken (deadlines s) begun s2 → Promises s → Promises s2
  woken-Promises s2 t p = record {
    waits = λ v u e.
        let w = p.waits v u (sym (kept-promise s2 t v) ∙ e) in
        let th = awake_same s2 t u (rw w.0 refl) in
        (
          ap (λ x. x.state) th ∙ w.0,
          ap (λ x. x.futex_word) th ∙ w.1,
          ap (λ x. occurs u x.run_queue) t.same ∙ w.2,
        );
    sole =
        λ v w u e e'. p.sole v w u (sym (kept-promise s2 t v) ∙ e) (sym (kept-promise s2 t w) ∙ e');
  }

  -- No thread is asked to give way.
  quiet-PhaseEnded : (s2 : Scheduler) → Woken (deadlines s) begun s2 → PhaseEnded s s2
  quiet-PhaseEnded s2 t =
      let cur : s2.cur_phase ≡ s.cur_phase + 1 = ap (λ x. x.cur_phase) t.same ∙ begun-cur in
      let run : s2.run_queue ≡ s.run_queue = ap (λ x. x.run_queue) t.same in
      record {
        fits = t.fits;
        rested = record {
          ordered =
              Ordered-same (deadlines s) (deadlines s2) s2.sleep_queue
                (λ g o.
                  let asleep : (s2.threads g).state ≡ sleeping =
                    state_sleeping (s2.threads g).state
                      (ground (arith, t.fits.queues.sleeps g, o)) in
                  sym (ap (λ x. x.wakeup_phase) (still_asleep s2 t g asleep).1))
                t.ordered;
          armed = λ g st.
              let a = still_asleep s2 t g st in
              (rw a.1 (omega (arith, cur, a.0)), ap (λ x. x.futex_word) a.1 ∙ (rest.armed g a.2).1);
          in_step = cur ∙ omega (arith, few, rest.in_step) ∙ sym (ap (λ x. x.num_phases) t.same);
        };
        next_phase = cur;
        promised = woken-Promises s2 t;
        same_contexts = ap (λ x. x.contexts) t.same;
        woken = λ g st due.
            let now = t.woken g st (omega (arith, due, begun-cur)) in
            (ap (λ x. x.state) now, ap (λ x. x.futex_word) now);
        others = λ g late. ap (λ x. x.state) (t.others g (λ st. omega (arith, late st, begun-cur)));
        heirs = λ u o z. absurd (omega (arith, o, z, ap (occurs u) run));
      }

  -- A thread that runs ran before.
  ran :
      (s2 : Scheduler)
      → Woken (deadlines s) begun s2
      → (g : ℕ) → (s2.threads g).state ≡ running
      → (s.threads g).state ≡ running
  ran s2 t g run = elim (Bool-cases (is_sleeping (s.threads g).state)) [
    | inr n ↦ ap (λ x. x.state) (sym (awake_same s2 t g n)) ∙ run
    | inl y ↦ elim (Bool-cases (leb (s.threads g).wakeup_phase begun.cur_phase)) [
      | inl due ↦
          let same = t.woken g (state_sleeping (s.threads g).state y) (ground (arith, due)) in
          absurd (ground (arith, ap is_running (sym (ap (λ x. x.state) same) ∙ run)))
      | inr n ↦ let same = t.others g (λ a. ground (arith, n)) in ap (λ x. x.state) (sym same) ∙ run
    ]
  ]

  -- Some threads are asked to give way.
  asking-PhaseEnded :
      (avail : List ℕ) (s2 s' : Scheduler)
      → Woken (deadlines s) begun s2
      → Ticked avail s2 s'
      → PhaseEnded s s'
  asking-PhaseEnded avail s2 s' t k =
      let e = quiet-PhaseEnded s2 t in
      let state : (g : ℕ) → (s'.threads g).state ≡ (s2.threads g).state =
        λ g. ap (λ x. x.state) (k.kept g) in
      let deadline : (g : ℕ) → (s'.threads g).wakeup_phase ≡ (s2.threads g).wakeup_phase =
        λ g. ap (λ x. x.wakeup_phase) (k.kept g) in
      let futex : (g : ℕ) → (s'.threads g).futex_word ≡ (s2.threads g).futex_word =
        λ g. ap (λ x. x.futex_word) (k.kept g) in
      let run : s2.run_queue ≡ s.run_queue = ap (λ x. x.run_queue) t.same in
      record {
        fits = k.fits;
        rested = record {
          ordered = rw k.same_sleep (
              Ordered-same (deadlines s2) (deadlines s') s2.sleep_queue (λ g o. sym (deadline g))
                e.rested.ordered);
          armed = λ g st.
              let a = e.rested.armed g (sym (state g) ∙ st) in
              (omega (arith, deadline g, k.same_phase.0, a.0), futex g ∙ a.1);
          in_step = k.same_phase.0 ∙ e.rested.in_step ∙ sym k.same_phase.1;
        };
        next_phase = k.same_phase.0 ∙ e.next_phase;
        promised = λ p. k.promised (e.promised p);
        same_contexts = k.same_contexts ∙ e.same_contexts;
        woken = λ g st due. let a = e.woken g st due in (state g ∙ a.0, futex g ∙ a.1);
        others = λ g late. state g ∙ e.others g late;
        heirs = λ u o z.
            let h = k.heirs u (rw run o) z in
            let waits : is_sleeping (s.threads u).state ≡ false =
              queued_awake (s.threads u).state (omega (arith, f.queues.runs u, o)) in
            (
              h.0,
              h.1,
              ap (λ x. x h.1) (sym e.same_contexts) ∙ h.2,
              ran s2 t h.0 h.3,
              h.4,
              ap (λ x. x.mask h.1) (sym (awake_same s2 t u waits)) ∙ h.5,
            );
      }

  -- `callback` of a scheduler that fits, whose sleeping threads are queued by deadline with none
  -- passed, and whose phases are counted alike and do not overflow, trips no assertion and returns,
  -- with a scheduler that fits and is rested, one phase on. The threads whose
  -- deadline that phase is are blocked and woken; all others keep their state, and contexts keep their
  -- threads. A thread taken off the run queue is the heir of a running thread on a context that it may
  -- have.
  pub callback-PhaseEnded :
      (draw : ℕ → ℕ) → ((k : ℕ) → draw k ≤ k) → Returns (callback draw s) (PhaseEnded s)
  unfolding callback
  callback-PhaseEnded draw fair =
      let bound = count-le_length (λ c. is_used (s.contexts c).state) (range_from 0 s.num_cores) in
      let few_used : s.scheduled_threads ≤ s.num_cores =
        omega (arith, f.seats.counted, bound, length-range_from 0 s.num_cores) in
      Returns-assert (leb s.scheduled_threads s.num_cores) _ (PhaseEnded s)
        (le→leb s.scheduled_threads s.num_cores few_used)
        (Returns-assert (begun.cur_phase == begun.num_phases) _ (PhaseEnded s)
          (rw rest.in_step (ground arith))
          (Returns->>= (wake_sleepers begun.sleep_queue begun) _ (Woken (deadlines s) begun)
            (PhaseEnded s) all_woken
            (λ s2 t. elim (Bool-cases (no_one s2.run_queue)) [
              | inl y ↦
                  Returns-then (no_one s2.run_queue) _ _ (PhaseEnded s) y (quiet-PhaseEnded s2 t)
              | inr n ↦ Returns-else (no_one s2.run_queue) _ _ (PhaseEnded s) n (
                  Returns-if ((s2.cur_phase % s2.sched_quantum) == 0) _ _ (PhaseEnded s)
                    (Returns-map (sched_tick draw s2) _ (PhaseEnded s)
                      (sched_tick-Ticked draw s2 fair t.fits)
                      (λ s' k. asking-PhaseEnded _ s2 s' t k))
                    (quiet-PhaseEnded s2 t))
            ])))
