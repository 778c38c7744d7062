-- ===== src/Sched/Scheduler/Ticks.antt =====
-- The end of a quantum: `schedTick` of src/scheduler.h on a scheduler that fits.
use cache_sim.Sched.Scheduler.Promises.{put-Promises, Promises}
use cache_sim.Sched.Scheduler.Phase.{set_handoff, tick_loop, shuffle_cores, sched_tick}
use cache_sim.Sched.Scheduler.Pick.{Option-cases}
use cache_sim.Sched.Scheduler.Lists.{
  first_fit-some, erase_other, put_self, put_other, length-range_from, occurs-range_from,
  erase_self,
}
use cache_sim.Sched.Scheduler.Switches.{seat_of}
use cache_sim.Sched.Scheduler.Fits.{Fits}
use cache_sim.Sched.Scheduler.Moves.{dequeue-FitsWith, touch-FitsWith}
use cache_sim.Sched.Barrier.Tally.{one_if, count-swap, occurs}
use cache_sim.Sched.Scheduler.{
  running, first_fit, used_by, set_thread, erase, put, range_from, ThreadInfo, Scheduler,
}
use cache_sim.Base.{
  ◌==◌, leb, ltb, Returns-map, Returns, length-set, get_or, set, length, ℕ, zero, suc, ◌+◌, ◌-◌,
  ◌≤◌, ◌<◌, ◌≡◌, refl, sym, ap, subst, ◌∙◌, ◌≢◌, inl, inr, true, ◌&&◌, some, List, [], ◌∷◌, arith,
  ℕ_discrete,
}

-- Threads are as before, but for the threads that get their contexts. A thread that left the run queue
-- gets the context of one running thread, a context of `avail` that it may have; threads on other
-- contexts are not asked.
pub record Ticked (avail : List ℕ) (s s' : Scheduler) : Type 0 where
  pub fits : Fits s'
  pub same_contexts : s'.contexts ≡ s.contexts
  pub kept :
      (u : ℕ)
      → s'.threads u ≡ record (s.threads u) { handoff_thread = (s'.threads u).handoff_thread }
  pub heirs :
      (u : ℕ)
      → 0 < occurs u s.run_queue
      → occurs u s'.run_queue ≡ 0
      → (v : ℕ) × (c : ℕ) × (s.contexts c ≡ used_by v)
        × ((s.threads v).state ≡ running)
        × ((s'.threads v).handoff_thread ≡ some u)
        × ((s.threads u).mask c ≡ true)
        × (0 < occurs c avail)
  pub not_asked :
      (c v : ℕ)
      → s.contexts c ≡ used_by v
      → occurs c avail ≡ 0
      → (s'.threads v).handoff_thread ≡ (s.threads v).handoff_thread
  pub same_phase : (s'.cur_phase ≡ s.cur_phase) × (s'.num_phases ≡ s.num_phases)
  pub same_sleep : s'.sleep_queue ≡ s.sleep_queue
  pub promised : Promises s → Promises s'

unchanged : (avail : List ℕ) (s : Scheduler) → Fits s → Ticked avail s s
unchanged avail s f = record {
  fits = f;
  same_contexts = refl;
  kept = λ u. refl;
  heirs = λ u o z. absurd (omega (arith, o, z));
  not_asked = λ c v e z. refl;
  same_phase = (refl, refl);
  same_sleep = refl;
  promised = λ p. p;
}

-- The thread `v` of the context `c` is asked to give way to `g`.
module _ (s : Scheduler) (g c v : ℕ) (f : Fits s) (waited : 0 < occurs g s.run_queue)
    (ok : (s.threads g).mask c ≡ true) (has : s.contexts c ≡ used_by v)
    (run : (s.threads v).state ≡ running) where
  abbrev pub asked : Scheduler
  asked = record s {
    threads = put s.threads v (record (s.threads v) { handoff_thread = some g });
    run_queue = erase g s.run_queue;
  }

  pub asked-Fits : Fits asked
  asked-Fits =
      (dequeue-FitsWith [] (set_thread s v (record (s.threads v) { handoff_thread = some g })) g
        (touch-FitsWith [] s v (record (s.threads v) { handoff_thread = some g }) f refl refl
          (λ o. (f.queues.armed v o, λ d. refl)))
        waited).0

  asked_kept :
      (u : ℕ)
      → asked.threads u ≡ record (s.threads u) { handoff_thread = (asked.threads u).handoff_thread }
  asked_kept u = elim (ℕ_discrete u v) [
    | yes e ↦ rw (e, put_self s.threads v (record (s.threads v) { handoff_thread = some g })) refl
    | no ne ↦
        rw (put_other s.threads v u (record (s.threads v) { handoff_thread = some g }) ne) refl
  ]

  pub asked-Ticked :
      (avail : List ℕ) (s' : Scheduler)
      → 0 < occurs c avail
      → occurs c avail ≤ 1
      → Ticked (erase c avail) asked s'
      → Ticked avail s s'
  asked-Ticked avail s' here once t =
      let fewer : (d : ℕ) → occurs d (erase c avail) ≤ occurs d avail = λ d. elim (ℕ_discrete d c) [
        | yes e ↦ rw e (omega (arith, erase_self c avail here))
        | no ne ↦ omega (arith, erase_other c d avail ne)
      ] in
      let gone : occurs c (erase c avail) ≡ 0 = omega (arith, erase_self c avail here, once) in
      record {
        fits = t.fits;
        same_contexts = t.same_contexts;
        kept = λ u.
            t.kept u
            ∙ ap (λ (x : ThreadInfo). record x { handoff_thread = (s'.threads u).handoff_thread })
                (asked_kept u);
        heirs = λ u o z. elim (ℕ_discrete u g) [
          | yes e ↦ (
            v,
            c,
            has,
            run,
            t.not_asked c v has gone
                ∙ ap (λ x. x.handoff_thread) (put_self s.threads v _)
                ∙ ap some (sym e),
            subst (λ k. (s.threads k).mask c ≡ true) (sym e) ok,
            here,
          )
          | no ne ↦
              let r = t.heirs u (rw (erase_other g u s.run_queue ne) o) z in
              (
                r.0,
                r.1,
                r.2,
                ap (λ x. x.state) (sym (asked_kept r.0)) ∙ r.3,
                r.4,
                ap (λ x. x.mask r.1) (sym (asked_kept u)) ∙ r.5,
                omega (arith, fewer r.1, r.6),
              )
        ];
        not_asked = λ d w e z.
            let other : w ≢ v = λ same.
              let at =
                (seat_of s.num_cores s.threads s.contexts [] s.free_list s.scheduled_threads w d
                  f.seats e).1 in
              let at_c =
                (seat_of s.num_cores s.threads s.contexts [] s.free_list s.scheduled_threads v c
                  f.seats has).1 in
              let same_context : d ≡ c = sym at ∙ ap (λ k. (s.threads k).cid) same ∙ at_c in
              absurd (ground (arith, z, subst (λ k. 0 < occurs k avail) (sym same_context) here)) in
            t.not_asked d w e (omega (arith, fewer d, z))
            ∙ ap (λ x. x.handoff_thread) (put_other s.threads v w _ other);
        same_phase = t.same_phase;
        same_sleep = t.same_sleep;
        promised = λ p. t.promised (put-Promises s v g f.queues waited p);
      }

-- A waiting thread is on the run queue once.
still_waits :
    (g u : ℕ) (xs : List ℕ) (s : Scheduler)
    → ((w : ℕ) → occurs w (g ∷ xs) ≤ occurs w s.run_queue)
    → 0 < occurs g s.run_queue
    → Fits s
    → occurs u xs ≤ occurs u (erase g s.run_queue)
still_waits g u xs s rest waited f = elim (ℕ_discrete u g) [
  | yes e ↦ rw e (ground (arith, rest g, erase_self g s.run_queue waited, f.queues.runs g))
  | no ne ↦ omega (arith, rest u, erase_other g u s.run_queue ne)
]

fewer_cores :
    (avail : List ℕ) (c d n : ℕ)
    → 0 < occurs c avail
    → ((k : ℕ) → 0 < occurs k avail → (k < n) × (occurs k avail ≤ 1))
    → 0 < occurs d (erase c avail)
    → (d < n) × (occurs d (erase c avail) ≤ 1)
fewer_cores avail c d n here cores o = elim (ℕ_discrete d c) [
  | yes e ↦ absurd (
      ground (
        arith,
        erase_self c avail here,
        (cores c here).1,
        subst (λ k. 0 < occurs k (erase c avail)) e o,
      ))
  | no ne ↦
      let same = erase_other c d avail ne in
      let r = cores d (omega (arith, same, o)) in (r.0, omega (arith, same, r.1))
]

-- The loop asks a running thread for each thread that it takes off the run queue, and no thread twice.
tick_loop-Ticked :
    (xs avail : List ℕ) (s : Scheduler)
    → Fits s
    → ((u : ℕ) → occurs u xs ≤ occurs u s.run_queue)
    → ((c : ℕ) → 0 < occurs c avail → (c < s.num_cores) × (occurs c avail ≤ 1))
    → Returns (tick_loop xs avail s) (Ticked avail s)
unfolding tick_loop set_handoff
tick_loop-Ticked [] avail s f rest cores = unchanged avail s f
tick_loop-Ticked (g ∷ xs) [] s f rest cores = unchanged [] s f
tick_loop-Ticked (g ∷ xs) (a ∷ avail) s f rest cores =
    elim (Option-cases (first_fit (s.threads g).mask (a ∷ avail))) [
      | inl e ↦
          rw (e, tick_loop) (tick_loop-Ticked xs (a ∷ avail) s f (λ u. omega (arith, rest u)) cores)
      | inr (c, e) ↦
          let r = first_fit-some (s.threads g).mask (a ∷ avail) c e in
          let waited : 0 < occurs g s.run_queue = ground (arith, rest g) in
          let b = f.served g c waited (cores c r.1).0 r.0 refl in
          let s1 = asked s g c b.0 f waited r.0 b.1 b.2 in
          rw (e, tick_loop, ap (λ x. x.cur_thread) b.1)
            (Returns-map (tick_loop xs (erase c (a ∷ avail)) s1) (Ticked (erase c (a ∷ avail)) s1)
              (Ticked (a ∷ avail) s)
              (tick_loop-Ticked xs (erase c (a ∷ avail)) s1
                (asked-Fits s g c b.0 f waited r.0 b.1 b.2)
                (λ u. still_waits g u xs s rest waited f)
                (λ d o. fewer_cores (a ∷ avail) c d s.num_cores r.1 cores o))
              (λ s' t.
                asked-Ticked s g c b.0 f waited r.0 b.1 b.2 (a ∷ avail) s' r.1 (cores c r.1).1 t))
    ]

-- The shuffle keeps each core once.
shuffle_cores-occurs :
    (draw : ℕ → ℕ) (i : ℕ) (xs : List ℕ) (c : ℕ)
    → ((k : ℕ) → draw k ≤ k)
    → (0 < i → i < length xs)
    → occurs c (shuffle_cores draw i xs) ≡ occurs c xs
unfolding shuffle_cores
shuffle_cores-occurs draw zero xs c fair inside = refl
shuffle_cores-occurs draw (suc i) xs c fair inside =
    let there : suc i < length xs = inside (omega arith) in
    let j = draw (suc i) in
    let swapped = set (set xs (suc i) (get_or xs j 0)) j (get_or xs (suc i) 0) in
    let same : length swapped ≡ length xs =
      length-set (set xs (suc i) (get_or xs j 0)) j (get_or xs (suc i) 0)
      ∙ length-set xs (suc i) (get_or xs j 0) in
    shuffle_cores-occurs draw i swapped c fair (λ p. omega (arith, there, same))
    ∙ count-swap (λ u. u == c) xs (suc i) j there (omega (arith, fair (suc i), there))

-- `schedTick` of a scheduler that fits, so that each context that a waiting thread may have has a running
-- thread, trips no assertion and returns a scheduler that fits. The contexts and threads are as before, but that a
-- thread taken off the run queue is the heir of a running thread on a context that it may have, and of
-- no other; so no waiting thread is lost.
pub sched_tick-Ticked :
    (draw : ℕ → ℕ) (s : Scheduler)
    → ((k : ℕ) → draw k ≤ k)
    → Fits s
    → Returns
        (sched_tick draw s)
        (Ticked (shuffle_cores draw (s.num_cores - 1) (range_from 0 s.num_cores)) s)
unfolding sched_tick
sched_tick-Ticked draw s fair f =
    let cores = shuffle_cores draw (s.num_cores - 1) (range_from 0 s.num_cores) in
    let same : (c : ℕ) → occurs c cores ≡ one_if (leb 0 c && ltb c (0 + s.num_cores)) = λ c.
      shuffle_cores-occurs draw (s.num_cores - 1) (range_from 0 s.num_cores) c fair
        (λ p. omega (arith, length-range_from 0 s.num_cores))
      ∙ occurs-range_from c 0 s.num_cores in
    tick_loop-Ticked s.run_queue cores s f (λ u. omega arith)
      (λ c o. (ground (arith, same c, o), ground (arith, same c)))
