-- ===== src/Sched/Scheduler/Pick.antt =====
-- What `schedule`, `deschedule` and `schedThread` of src/scheduler.h do to a scheduler that fits.
use cache_sim.Sched.Scheduler.Frames.{out-Frame, Frame}
use cache_sim.Sched.Scheduler.Seat.{seated}
use cache_sim.Sched.Scheduler.Unseat.{unseat-FitsWith, unseated}
use cache_sim.Sched.Scheduler.Lists.{
  erase_self, put_self, put_other, erase_other, on-lt, first_fit-some, first_fit-none,
}
use cache_sim.Sched.Scheduler.Switches.{used_by-injective}
use cache_sim.Sched.Scheduler.Seating.{take-FitsWith}
use cache_sim.Sched.Scheduler.Fits.{Fits, Busy, FitsWith}
use cache_sim.Sched.Scheduler.Moves.{rests}
use cache_sim.Sched.Barrier.Tally.{one_if, occurs}
use cache_sim.Sched.Scheduler.{
  ThreadState, running, holds, out, first_fit, is_idle, deschedule, started, find_context, on,
  blocked, erase, is_used, schedule, allows, take_free, sched_thread, used_by, idle_context,
  is_sleeping, steal, is_out, sleeping, Scheduler, is_thread, queued, is_rest, may_run, wakeup,
  set_thread,
}
use cache_sim.Util.InList.{is_null}
use cache_sim.Base.{
  ltb, lt→ltb, ◌==◌, Bool-cases, Returns-assert, Returns-else, Returns-then, Returns->>=, done,
  Returns, ℕ, ◌<◌, ◌≡◌, refl, sym, ap, subst, ◌∙◌, ◌≢◌, ◌⊎◌, inl, inr, true, false, ◌&&◌, Option,
  none, some, [], ◌∷◌, arith, Bool,
}

-- All that the thread may have is taken by threads that run.
abbrev pub NoneIdle : Scheduler → ℕ → Type 0
NoneIdle s g = (c : ℕ) → c < s.num_cores → (s.threads g).mask c ≡ true → Busy s.threads s.contexts c

-- A context that was found for the thread `g`, and is in limbo.
pub record Got (s : Scheduler) (g c : ℕ) (s' : Scheduler) : Type 0 where
  pub fits : FitsWith (c ∷ []) s'
  pub idle_now : s'.contexts c ≡ idle_context
  pub inside : c < s'.num_cores
  pub allowed : (s.threads g).mask c ≡ true
  pub not_busy : Busy s.threads s.contexts c → ⊥
  pub same_thread : s'.threads g ≡ s.threads g
  pub same_run : s'.run_queue ≡ s.run_queue
  pub frame : Frame s g s'

abbrev pub Found : Scheduler → ℕ → Option ℕ × Scheduler → Type 0
Found s g (none, s') = (s' ≡ s) × NoneIdle s g
Found s g (some c, s') = Got s g c s'

pub schedule_lem :
    (s : Scheduler) (g c : ℕ)
    → may_run (s.threads g).state ≡ true
    → s.contexts c ≡ idle_context
    → schedule s g c ≡ done (seated s g c)
unfolding schedule
schedule_lem s g c waits was_idle =
    rw (waits, ap (λ x. is_idle x.state) was_idle, ap (λ x. is_null x.cur_thread) was_idle) refl

pub deschedule_lem :
    (s : Scheduler) (g c : ℕ) (target : ThreadState)
    → c ≡ (s.threads g).cid
    → holds (s.threads g).state ≡ true
    → s.contexts (s.threads g).cid ≡ used_by g
    → is_rest target ≡ true
    → deschedule s g c target
      ≡ done (unseated s g (record (s.threads g) { state = target }) s.out_queue s.sleep_queue)
unfolding deschedule
deschedule_lem s g c target at had taken rest =
    let same : ((s.threads g).cid == (s.threads g).cid) ≡ true = ground arith in
    let its : is_thread (s.contexts (s.threads g).cid).cur_thread g ≡ true =
      ap (λ x. is_thread x.cur_thread g) taken ∙ ground arith in
    rw (at, had, ap (λ x. is_used x.state) taken, same, its, rest) refl

pub wakeup_lem :
    (s : Scheduler) (g : ℕ) (needs_join : Bool)
    → (s.threads g).futex_word ≡ 1
    → wakeup s g needs_join
      ≡ done (set_thread s g (record (s.threads g) { needs_join = needs_join; futex_word = 0 }))
unfolding wakeup
wakeup_lem s g needs_join asleep = rw asleep refl

Found-allows :
    (s : Scheduler) (g : ℕ) (r : Option ℕ × Scheduler)
    → Found s g r
    → allows (s.threads g).mask r.0 ≡ true
Found-allows s g (none, s') found = refl
Found-allows s g (some c, s') found = found.allowed

pub Option-cases {ℓ} : {A : Type ℓ} (o : Option A) → (o ≡ none) ⊎ ((a : A) × (o ≡ some a))
Option-cases none = inl refl
Option-cases (some a) = inr (a, refl)

-- A thread that has a context and is not out runs.
in_use : (st : ThreadState) → holds st ≡ true → (is_out st ≡ true → st ≡ running) → st ≡ running
in_use running e h = refl
in_use out e h = h refl
in_use started e h = cc
in_use blocked e h = cc
in_use sleeping e h = cc
in_use queued e h = cc

was_not_asleep : (st : ThreadState) → is_out st ≡ true → is_sleeping st ≡ false
was_not_asleep out e = refl
was_not_asleep started e = cc
was_not_asleep running e = cc
was_not_asleep blocked e = cc
was_not_asleep sleeping e = cc
was_not_asleep queued e = cc

module _ (s : Scheduler) (g : ℕ) (f : Fits s) (waits : may_run (s.threads g).state ≡ true) where
  -- An idle context is on the free list.
  idle-on :
      (c : ℕ) → c < s.num_cores → is_idle (s.contexts c).state ≡ true → 0 < occurs c s.free_list
  idle-on c inside i = ground (arith, f.seats.vacant c, i)

  free-idle : (c : ℕ) → 0 < occurs c s.free_list → (c < s.num_cores) × (s.contexts c ≡ idle_context)
  free-idle c o = (
    ground (arith, f.seats.vacant c, o),
    elim (f.seats.seat c) [
      | inl e ↦ e
      | inr (h, e, hold, at) ↦
          absurd (ground (arith, f.seats.vacant c, o, ap (λ x. is_idle x.state) e))
    ],
  )

  take_free-Found :
      (c : ℕ)
      → 0 < occurs c s.free_list
      → (s.threads g).mask c ≡ true
      → Returns (take_free s c) (Found s g)
  take_free-Found c here ok =
      let was = free-idle c here in
      Returns-assert (on c s.free_list) _ (Found s g) (on-lt c s.free_list here) (record {
        fits = take-FitsWith [] s c refl f here;
        idle_now = was.1;
        inside = was.0;
        allowed = ok;
        not_busy =
            λ b. let clash : true ≡ false = ap (λ x. is_idle x.state) (sym was.1 ∙ b.1) in cc;
        same_thread = refl;
        same_run = refl;
        frame = record {
          same = λ u ne n off. refl;
          no_more = λ u ne. omega arith;
          promises = λ u. refl;
        };
      })

  -- Nothing is idle, and no thread that left has a context that `g` may have.
  all_busy :
      first_fit (s.threads g).mask s.free_list ≡ none
      → first_fit (λ o. (s.threads g).mask (s.threads o).cid) s.out_queue ≡ none
      → NoneIdle s g
  all_busy no_free no_out c inside ok = elim (f.seats.seat c) [
    | inl e ↦ absurd (
        ground (
          arith,
          ok,
          first_fit-none (s.threads g).mask s.free_list c no_free
              (idle-on c inside (ap (λ x. is_idle x.state) e)),
        ))
    | inr (h, e, hold, at) ↦ (
      h,
      e,
      in_use (s.threads h).state hold (λ was.
          let kept =
            first_fit-none _ s.out_queue h no_out (omega (arith, f.queues.outs h, ap one_if was)) in
          let mine : (s.threads g).mask (s.threads h).cid ≡ true = rw at ok in
          absurd (ground (arith, kept, mine))),
    )
  ]

  stolen-Got :
      (o : ℕ)
      → (s.threads g).mask (s.threads o).cid ≡ true
      → 0 < occurs o s.out_queue
      → Got s g (s.threads o).cid (
          unseated s o
            (record (s.threads o) { state = blocked })
            (erase o s.out_queue)
            s.sleep_queue)
  stolen-Got o ok here =
      let was : is_out (s.threads o).state ≡ true = ground (arith, f.queues.outs o, here) in
      let had : holds (s.threads o).state ≡ true = ground (arith, was) in
      let apart : g ≢ o = λ e. absurd (
        ground (
          arith,
          had,
          (rests (s.threads g).state waits).2,
          ap (λ k. holds (s.threads k).state) e,
        )) in
      let kept = f.seats.held o had in
      record {
        fits =
            unseat-FitsWith s o _ (erase o s.out_queue) s.sleep_queue f had refl refl
              (λ u ne. erase_other o u s.out_queue ne) (λ u ne. refl)
              (ground (arith, erase_self o s.out_queue here, f.queues.outs o, was))
              (ground (arith, f.queues.sleeps o, was_not_asleep (s.threads o).state was));
        idle_now = put_self s.contexts (s.threads o).cid idle_context;
        inside = kept.0;
        allowed = ok;
        not_busy = λ b.
            let same : b.0 ≡ o = used_by-injective b.0 o (sym b.1 ∙ kept.1) in
            let run : (s.threads o).state ≡ running =
              subst (λ k. (s.threads k).state ≡ running) same b.2 in
            absurd (ground (arith, was, ap is_out run));
        same_thread = put_other s.threads o g _ apart;
        same_run = refl;
        frame = out-Frame s _ g o (record (s.threads o) { state = blocked }) refl was refl refl;
      }

  steal-Found : first_fit (s.threads g).mask s.free_list ≡ none → Returns (steal s g) (Found s g)
  unfolding steal
  steal-Found no_free =
      elim (Option-cases (first_fit (λ o. (s.threads g).mask (s.threads o).cid) s.out_queue)) [
        | inl e ↦ rw (e, steal) (refl, all_busy no_free e)
        | inr (o, e) ↦
            let r = first_fit-some (λ o. (s.threads g).mask (s.threads o).cid) s.out_queue o e in
            let had : holds (s.threads o).state ≡ true = ground (arith, f.queues.outs o, r.1) in
            rw
              (
                e,
                steal,
                deschedule_lem (record s { out_queue = erase o s.out_queue }) o (s.threads o).cid
                    blocked refl had (f.seats.held o had).1 refl,
              )
              (stolen-Got o r.0 r.1)
      ]

  find_context-Found : Returns (find_context s g) (Found s g)
  unfolding find_context
  find_context-Found =
      elim (Bool-cases
        (is_idle (s.contexts (s.threads g).cid).state && (s.threads g).mask (s.threads g).cid)) [
          | inl y ↦ Returns-then _ _ _ (Found s g) y (
              take_free-Found (s.threads g).cid
                (idle-on (s.threads g).cid (f.in_range g) (ground (arith, y))) (ground (arith, y)))
          | inr n ↦
              Returns-else _ _ _ (Found s g) n
                (elim (Option-cases (first_fit (s.threads g).mask s.free_list)) [
                  | inl e ↦ rw (e, find_context) (steal-Found e)
                  | inr (c, e) ↦
                      let r = first_fit-some (s.threads g).mask s.free_list c e in
                      rw (e, find_context) (take_free-Found c r.1 r.0)
                ])
        ]

  -- `schedThread` finds a context that the thread may have and no running thread has, or else all
  -- those that it may have are taken by running threads.
  pub sched_thread-Found : Returns (sched_thread s g) (Found s g)
  unfolding sched_thread
  sched_thread-Found =
      Returns-assert (ltb (s.threads g).cid s.num_cores) _ (Found s g) (lt→ltb _ _ (f.in_range g)) (
        Returns->>= (find_context s g) _ (Found s g) (Found s g) find_context-Found (λ r found.
          Returns-assert (allows (s.threads g).mask r.0) _ (Found s g) (Found-allows s g r found)
            found))
