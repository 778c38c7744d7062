-- ===== src/Sched/Scheduler/Parting.antt =====
-- A thread that goes to sleep or leaves, and the context it had: parts of `leave` of src/scheduler.h.
use cache_sim.Sched.Scheduler.Frames.{put-Frame, Frame, Frame-trans}
use cache_sim.Sched.Scheduler.Switches.{away-FitsWith, used_by-injective}
use cache_sim.Sched.Scheduler.Seating.{give-FitsWith}
use cache_sim.Sched.Scheduler.Passing.{
  sched_context-Picked, pass_on-Passed, Passed, Unwanted, give_up_lem, take_over-TakenOver,
  TakenOver, Passed-Frame,
}
use cache_sim.Sched.Scheduler.Unseat.{unseated, unseat-FitsWith}
use cache_sim.Sched.Scheduler.Pick.{deschedule_lem}
use cache_sim.Sched.Scheduler.Lists.{on-zero, put_self, put_other}
use cache_sim.Sched.Scheduler.Calls.{pass_on, insert_sleeper, deadlines, leave_lazily, take_over}
use cache_sim.Sched.Scheduler.Fits.{FitsWith, Busy, Fits}
use cache_sim.Sched.Barrier.Tally.{one_if, occurs}
use cache_sim.Sched.Barrier.Run.{leaves, Call}
use cache_sim.Base.{
  ◌>>=◌, Returns, assert, Returns-map, ◌>>◌, ℕ, suc, ◌<◌, ◌≡◌, refl, sym, ap, ◌∙◌, ◌≢◌, ◌⊎◌, true,
  false, Option, none, some, List, [], ◌∷◌, arith, Bool-cases, Returns-assert, Returns-then,
  Returns-else, subst, inl, inr, ℕ_discrete,
}
use cache_sim.Sched.Scheduler.{
  is_queued, ThreadState, running, holds, ThreadInfo, sched_context, out, deschedule, ContextInfo,
  is_idle, sleeping, idle_context, blocked, Scheduler, is_sleeping, unlinked, is_out, used_by,
  may_run, put, is_running,
}

pub insert_sleeper_other :
    (deadline : ℕ → ℕ) (g u : ℕ) (xs : List ℕ)
    → u ≢ g
    → occurs u (insert_sleeper deadline g xs) ≡ occurs u xs
unfolding insert_sleeper
insert_sleeper_other deadline g u [] ne = ground (arith, (λ (e : g ≡ u). ne (sym e)))
insert_sleeper_other deadline g u (x ∷ xs) ne =
    let differs : g ≢ u = λ e. ne (sym e) in
    ground (arith, differs, insert_sleeper_other deadline g u xs ne)

insert_sleeper_self :
    (deadline : ℕ → ℕ) (g : ℕ) (xs : List ℕ)
    → occurs g (insert_sleeper deadline g xs) ≡ suc (occurs g xs)
unfolding insert_sleeper
insert_sleeper_self deadline g [] = ground arith
insert_sleeper_self deadline g (x ∷ xs) = ground (arith, insert_sleeper_self deadline g xs)

-- A thread that waits for the context has it and runs, with no call of the barrier; or the context
-- leaves the barrier, no running thread has it, and no thread waits for it.
abbrev pub Handed : Scheduler → ℕ → Scheduler × Option Call → Type 0
Handed s c r =
    ((h : ℕ) × (0 < occurs h s.run_queue)
      × ((s.threads h).mask c ≡ true)
      × (r.0.contexts c ≡ used_by h)
      × ((r.0.threads h).state ≡ running)
      × (r.1 ≡ none))
    ⊎ ((r.1 ≡ some (leaves c)) × (Busy r.0.threads r.0.contexts c → ⊥) × Unwanted s c)

abbrev pub with_state : Scheduler → ℕ → ThreadState → ThreadInfo
with_state s g st = record (s.threads g) { state = st }

unused :
    (ts : ℕ → ThreadInfo) (cs : ℕ → ContextInfo) (c : ℕ) → cs c ≡ idle_context → Busy ts cs c → ⊥
unused ts cs c e b = let clash : true ≡ false = ap (λ x. is_idle x.state) (sym e ∙ b.1) in cc

-- The same run queue, and the same masks.
Passed-Handed :
    (s s' : Scheduler) (c : ℕ) (r : Scheduler × Option Call)
    → s'.run_queue ≡ s.run_queue
    → ((u : ℕ) → (s'.threads u).mask c ≡ (s.threads u).mask c)
    → Passed s' c r
    → Handed s c r
Passed-Handed s s' c r run masks p = elim p.outcome [
  | inl (h, o, m, has, runs, quiet) ↦ inl (h, rw (sym run) o, sym (masks h) ∙ m, has, runs, quiet)
  | inr (told, free, unwanted) ↦
      inr
        (told, unused r.0.threads r.0.contexts c free, λ u o. sym (masks u) ∙ unwanted u (rw run o))
]

module _ (s : Scheduler) (g : ℕ) (f : Fits s) (was : (s.threads g).state ≡ running) where
  had : holds (s.threads g).state ≡ true
  had = rw was refl

  pub off : occurs g s.run_queue ≡ 0
  off = ground (arith, f.queues.runs g, ap is_queued was)

  abbrev pub gone : ThreadState → List ℕ → Scheduler
  gone st sleep' = unseated s g (with_state s g st) s.out_queue sleep'

  gone-FitsWith :
      (st : ThreadState) (sleep' : List ℕ)
      → holds st ≡ false
      → ((u : ℕ) → u ≢ g → occurs u sleep' ≡ occurs u s.sleep_queue)
      → occurs g sleep' ≡ one_if (is_sleeping st)
      → FitsWith ((s.threads g).cid ∷ []) (gone st sleep')
  gone-FitsWith st sleep' rest others self =
      unseat-FitsWith s g (with_state s g st) s.out_queue sleep' f had rest refl (λ u ne. refl)
        others (ground (arith, f.queues.outs g, ap is_out was)) self

  gone-mask :
      (st : ThreadState) (u c : ℕ)
      → (put s.threads g (with_state s g st) u).mask c ≡ (s.threads u).mask c
  gone-mask st u c = elim (ℕ_discrete u g) [
    | yes e ↦ rw (e, put_self s.threads g (with_state s g st)) refl
    | no ne ↦ rw (put_other s.threads g u (with_state s g st) ne) refl
  ]

  -- The thread goes to sleep.
  pub fall_asleep-Passed :
      Returns
        (deschedule s g (s.threads g).cid sleeping >>= λ s1.
          assert (unlinked s1 g)
          >> pass_on (s.threads g).cid (
              sched_context
                (record s1 { sleep_queue = insert_sleeper (deadlines s1) g s1.sleep_queue })
                (s.threads g).cid))
        (λ r.
          Fits r.0
          × Handed s (s.threads g).cid r
          × ((r.0.threads g).state ≡ sleeping)
          × Frame s g r.0)
  fall_asleep-Passed =
      let s1 = gone sleeping s.sleep_queue in
      let sleep' = insert_sleeper (deadlines s1) g s.sleep_queue in
      let s2 = gone sleeping sleep' in
      let awake : occurs g s.sleep_queue ≡ 0 =
        ground (arith, f.queues.sleeps g, ap is_sleeping was) in
      let out_of : occurs g s.out_queue ≡ 0 = ground (arith, f.queues.outs g, ap is_out was) in
      let fits =
        gone-FitsWith sleeping sleep' refl
          (λ u ne. insert_sleeper_other (deadlines s1) g u s.sleep_queue ne)
          (insert_sleeper_self (deadlines s1) g s.sleep_queue ∙ ap suc awake) in
      rw
        (
          deschedule_lem s g (s.threads g).cid sleeping refl had (f.seats.held g had).1 refl,
          on-zero g s.run_queue off,
          on-zero g s.out_queue out_of,
          on-zero g s.sleep_queue awake,
        )
        (Returns-map _ (Passed s2 (s.threads g).cid)
          (λ r.
            Fits r.0
            × Handed s (s.threads g).cid r
            × ((r.0.threads g).state ≡ sleeping)
            × Frame s g r.0)
          (pass_on-Passed s2 (s.threads g).cid (sched_context s2 (s.threads g).cid) fits
            (put_self s.contexts (s.threads g).cid idle_context) (f.seats.held g had).0
            (sched_context-Picked ((s.threads g).cid ∷ []) s2 (s.threads g).cid fits))
          (λ r p. (
            p.fits,
            Passed-Handed s s2 (s.threads g).cid r refl
                (λ u. gone-mask sleeping u (s.threads g).cid) p,
            ap (λ x. x.state) (p.others g off ∙ put_self s.threads g (with_state s g sleeping)),
            Frame-trans s s2 r.0 g
                (put-Frame s s2 g (with_state s g sleeping) refl refl (λ u ne. omega arith))
                (Passed-Frame s2 (s.threads g).cid g r p),
          )))

  abbrev pub AwayNow : Scheduler × Option Call → Type 0
  AwayNow r =
      Fits r.0
      × Handed s (s.threads g).cid r
      × (((r.0.threads g).state ≡ blocked) ⊎ ((r.0.threads g).state ≡ out))
      × Frame s g r.0

  out_unused : Busy (put s.threads g (with_state s g out)) s.contexts (s.threads g).cid → ⊥
  out_unused b =
      let same : b.0 ≡ g = used_by-injective b.0 g (sym b.1 ∙ (f.seats.held g had).1) in
      let clash : out ≡ running =
        sym (ap (λ x. x.state) (put_self s.threads g (with_state s g out)))
        ∙ subst (λ k. (put s.threads g (with_state s g out) k).state ≡ running) same b.2 in
      absurd (ground (arith, ap is_running clash))

  -- The thread `h` has what `g` had, and `g` is blocked.
  abbrev pub Given : ℕ → Scheduler × Option Call → Type 0
  Given h r =
      TakenOver (gone blocked s.sleep_queue) (s.threads g).cid h r
      × ((r.0.threads g).state ≡ blocked)

  -- The context goes to a thread that waits.
  pub hand_to :
      (h : ℕ)
      → h ≢ g
      → may_run (s.threads h).state ≡ true
      → (s.threads h).futex_word ≡ 1
      → occurs h s.run_queue ≡ 0
      → Returns
          (deschedule s g (s.threads g).cid blocked >>= λ s1. take_over s1 h (s.threads g).cid)
          (Given h)
  hand_to h apart waits asleep off_h =
      let s1 = gone blocked s.sleep_queue in
      let awake : occurs g s.sleep_queue ≡ 0 =
        ground (arith, f.queues.sleeps g, ap is_sleeping was) in
      let same = put_other s.threads g h (with_state s g blocked) apart in
      let differs : g ≢ h = λ e. apart (sym e) in
      rw (deschedule_lem s g (s.threads g).cid blocked refl had (f.seats.held g had).1 refl) (
        Returns-map _ (TakenOver s1 (s.threads g).cid h) (Given h)
          (take_over-TakenOver s1 (s.threads g).cid h
            (gone-FitsWith blocked s.sleep_queue refl (λ u ne. refl) awake)
            (put_self s.contexts (s.threads g).cid idle_context) (f.seats.held g had).0
            (rw same waits) (rw same asleep) off_h)
          (λ r t. (
            t,
            ap (λ x. x.state) (t.others g differs ∙ put_self s.threads g (with_state s g blocked)),
          )))

  -- The thread keeps its context, or nobody wants it.
  pub lazily_none :
      Unwanted s (s.threads g).cid → Returns (leave_lazily g (s.threads g).cid (none, s)) AwayNow
  unfolding leave_lazily
  lazily_none unwanted =
      let awake : occurs g s.sleep_queue ≡ 0 =
        ground (arith, f.queues.sleeps g, ap is_sleeping was) in
      let out_of : occurs g s.out_queue ≡ 0 = ground (arith, f.queues.outs g, ap is_out was) in
      let free : unlinked s g ≡ true = ground (arith, off, awake, out_of) in
      elim (Bool-cases ((s.threads g).mask (s.threads g).cid)) [
        | inl y ↦ Returns-then ((s.threads g).mask (s.threads g).cid) _ _ AwayNow y (
            Returns-assert (unlinked s g) _ AwayNow free (
              away-FitsWith [] s g f was unwanted,
              inr (refl, out_unused, unwanted),
              inr (ap (λ x. x.state) (put_self s.threads g (with_state s g out))),
              put-Frame s _ g (with_state s g out) refl refl (λ u ne. omega arith),
            ))
        | inr n ↦
            let s1 = gone blocked s.sleep_queue in
            let fits = gone-FitsWith blocked s.sleep_queue refl (λ u ne. refl) awake in
            Returns-else ((s.threads g).mask (s.threads g).cid) _ _ AwayNow n (
              rw
                (
                  deschedule_lem s g (s.threads g).cid blocked refl had (f.seats.held g had).1 refl,
                  give_up_lem s1 (s.threads g).cid fits,
                )
                (
                  give-FitsWith ((s.threads g).cid ∷ []) s1 (s.threads g).cid refl fits
                      (λ u o. gone-mask blocked u (s.threads g).cid ∙ unwanted u o),
                  inr (
                    refl,
                    unused s1.threads s1.contexts (s.threads g).cid
                        (put_self s.contexts (s.threads g).cid idle_context),
                    unwanted,
                  ),
                  inl (ap (λ x. x.state) (put_self s.threads g (with_state s g blocked))),
                  put-Frame s _ g (with_state s g blocked) refl refl (λ u ne. omega arith),
                ))
      ]
