-- ===== src/Sched/Scheduler/Sleeps.antt =====
-- Sleeping threads: the order of `sleepQueue` of src/scheduler.h, and who wakes when a phase ends.
use cache_sim.Sched.Scheduler.Phase.{wake_sleepers}
use cache_sim.Sched.Scheduler.Pick.{wakeup_lem}
use cache_sim.Sched.Scheduler.Parting.{insert_sleeper_other}
use cache_sim.Sched.Scheduler.Lists.{put_self, put_other}
use cache_sim.Sched.Scheduler.Calls.{insert_sleeper}
use cache_sim.Sched.Scheduler.Switches.{wake-FitsWith}
use cache_sim.Sched.Scheduler.Fits.{Fits}
use cache_sim.Sched.Scheduler.Moves.{touch-FitsWith}
use cache_sim.Sched.Barrier.Tally.{occurs, one_if}
use cache_sim.Base.{
  Bool-cases, ltb, ℕ, ◌≤◌, ◌<◌, ◌≡◌, refl, sym, ap, ◌∙◌, ◌≢◌, inl, inr, true, false, List, [], ◌∷◌,
  arith, ℕ_discrete, ◌==◌, leb, Returns, Returns-map, subst,
}
use cache_sim.Sched.Scheduler.{
  is_queued, running, ThreadState, sleeping, set_state, put, blocked, Scheduler, queued, out,
  is_sleeping, ThreadInfo, set_thread, started,
}

-- No deadline is before that of a thread ahead.
abbrev pub Ordered : (ℕ → ℕ) → List ℕ → Type 0
Ordered w [] = Unit {0}
Ordered w (x ∷ xs) = ((u : ℕ) → 0 < occurs u xs → w x ≤ w u) × Ordered w xs

-- The insertion of `leave` keeps the queue ordered.
pub insert_sleeper-Ordered :
    (w : ℕ → ℕ) (g : ℕ) (xs : List ℕ) → Ordered w xs → Ordered w (insert_sleeper w g xs)
unfolding insert_sleeper
insert_sleeper-Ordered w g [] o = ((λ u h. absurd (omega arith)), tt)
insert_sleeper-Ordered w g (x ∷ xs) (first, o) = elim (Bool-cases (ltb (w g) (w x))) [
  | inl y ↦ rw y (
    (λ u h. elim (ℕ_discrete u x) [
      | yes e ↦ rw e (ground (arith, y))
      | no ne ↦
          let differs : x ≢ u = λ e. ne (sym e) in
          ground (arith, y, first u (ground (arith, h, differs)))
    ]),
    (first, o),
  )
  | inr n ↦ rw n (
    (λ u h. elim (ℕ_discrete u g) [
      | yes e ↦ rw e (ground (arith, n))
      | no ne ↦ first u (omega (arith, insert_sleeper_other w g u xs ne, h))
    ]),
    insert_sleeper-Ordered w g xs o,
  )
]

pub Ordered-same :
    (w w' : ℕ → ℕ) (xs : List ℕ)
    → ((u : ℕ) → 0 < occurs u xs → w u ≡ w' u)
    → Ordered w xs
    → Ordered w' xs
Ordered-same w w' [] same o = tt
Ordered-same w w' (x ∷ xs) same (first, o) = (
  (λ u h. omega (arith, first u h, same x (ground arith), same u (omega (arith, h)))),
  Ordered-same w w' xs (λ u h. same u (omega (arith, h))) o,
)

abbrev roused : ThreadInfo → ThreadInfo
roused th = record th { state = blocked; needs_join = false; futex_word = 0 }

-- The threads whose deadline is met are blocked and wake, and all others are as before.
pub record Woken (w : ℕ → ℕ) (s s' : Scheduler) : Type 0 where
  pub fits : Fits s'
  pub woken :
      (g : ℕ)
      → (s.threads g).state ≡ sleeping
      → w g ≤ s.cur_phase
      → s'.threads g ≡ roused (s.threads g)
  pub others :
      (g : ℕ) → ((s.threads g).state ≡ sleeping → s.cur_phase < w g) → s'.threads g ≡ s.threads g
  pub ordered : Ordered w s'.sleep_queue
  pub same : s' ≡ record s { threads = s'.threads; sleep_queue = s'.sleep_queue }

pub state_sleeping : (st : ThreadState) → is_sleeping st ≡ true → st ≡ sleeping
state_sleeping sleeping e = refl
state_sleeping started e = cc
state_sleeping running e = cc
state_sleeping out e = cc
state_sleeping blocked e = cc
state_sleeping queued e = cc

-- The first thread of the queue wakes.
module _ (w : ℕ → ℕ) (s : Scheduler) (g : ℕ) (rest : List ℕ) (f : Fits s)
    (queue : s.sleep_queue ≡ g ∷ rest) where
  first_sleeps : (s.threads g).state ≡ sleeping
  first_sleeps =
      state_sleeping (s.threads g).state (ground (arith, f.queues.sleeps g, ap (occurs g) queue))

  abbrev up : Scheduler
  up =
      let s0 = set_state s g blocked in
      record (set_thread s0 g (record (s0.threads g) { needs_join = false; futex_word = 0 })) {
        sleep_queue = rest;
      }

  up_self : up.threads g ≡ roused (s.threads g)
  up_self =
      let v : ThreadInfo = record (s.threads g) { state = blocked } in
      put_self (put s.threads g v) g _
      ∙ ap (λ (x : ThreadInfo). record x { needs_join = false; futex_word = 0 })
          (put_self s.threads g v)

  up_other : (u : ℕ) → u ≢ g → up.threads u ≡ s.threads u
  up_other u ne =
      put_other (put s.threads g (record (s.threads g) { state = blocked })) g u _ ne
      ∙ put_other s.threads g u _ ne

  up-Fits : Fits up
  up-Fits =
      let v : ThreadInfo = record (s.threads g) { state = blocked } in
      let here : occurs g rest ≡ 0 = ground (arith, f.queues.sleeps g, ap (occurs g) queue) in
      let sA : Scheduler = record s { threads = put s.threads g v; sleep_queue = rest } in
      let fA =
        wake-FitsWith [] s g v rest f first_sleeps refl refl
          (λ u ne. let differs : g ≢ u = λ e. ne (sym e) in rw queue (ground (arith, differs)))
          here in
      let off : occurs g s.run_queue ≡ 0 =
        ground (arith, f.queues.runs g, ap is_queued first_sleeps) in
      touch-FitsWith [] sA g (record (sA.threads g) { needs_join = false; futex_word = 0 }) fA refl
        refl (λ o. absurd (omega (arith, off, o)))

  up-Woken : (s' : Scheduler) → w g ≤ s.cur_phase → Woken w up s' → Woken w s s'
  up-Woken s' due_now t = record {
    fits = t.fits;
    woken = λ u asleep due. elim (ℕ_discrete u g) [
      | yes e ↦ rw e (
          t.others g
            (λ st. absurd (ground (arith, ap is_sleeping (sym (ap (λ x. x.state) up_self) ∙ st))))
          ∙ up_self)
      | no ne ↦
          t.woken u (ap (λ x. x.state) (up_other u ne) ∙ asleep) due ∙ ap roused (up_other u ne)
    ];
    others = λ u late. elim (ℕ_discrete u g) [
      | yes e ↦ absurd (
          omega (
            arith,
            due_now,
            subst (λ k. (s.threads k).state ≡ sleeping → s.cur_phase < w k) e late first_sleeps,
          ))
      | no ne ↦
          t.others u (λ st. late (sym (ap (λ x. x.state) (up_other u ne)) ∙ st)) ∙ up_other u ne
    ];
    ordered = t.ordered;
    same = t.same;
  }

-- No thread behind one that sleeps on is due.
not_yet :
    (w : ℕ → ℕ) (g : ℕ) (rest : List ℕ) (u now : ℕ)
    → ((v : ℕ) → 0 < occurs v rest → w g ≤ w v)
    → now < w g
    → w u ≤ now
    → 0 < occurs u (g ∷ rest)
    → ⊥
not_yet w g rest u now first later due here = elim (ℕ_discrete u g) [
  | yes e ↦ absurd (omega (arith, later, subst (λ k. w k ≤ now) e due))
  | no ne ↦
      let differs : g ≢ u = λ e. ne (sym e) in
      let on_rest : 0 < occurs u rest = ground (arith, differs, here) in
      absurd (omega (arith, first u on_rest, later, due))
]

-- The loop of `callback` wakes the threads whose deadline is met, and no others.
pub wake_sleepers-Woken :
    (w : ℕ → ℕ) (xs : List ℕ) (s : Scheduler)
    → Fits s
    → s.sleep_queue ≡ xs
    → Ordered w xs
    → ((u : ℕ) → (s.threads u).wakeup_phase ≡ w u)
    → ((u : ℕ)
        → (s.threads u).state ≡ sleeping
        → (s.cur_phase ≤ w u) × ((s.threads u).futex_word ≡ 1))
    → Returns (wake_sleepers xs s) (Woken w s)
unfolding wake_sleepers
wake_sleepers-Woken w [] s f queue o deadline armed = record {
  fits = f;
  woken = λ u asleep due.
      absurd (ground (arith, f.queues.sleeps u, ap (occurs u) queue, ap is_sleeping asleep));
  others = λ u late. refl;
  ordered = rw queue tt;
  same = refl;
}
wake_sleepers-Woken w (g ∷ rest) s f queue (first, o) deadline armed =
    elim (Bool-cases (leb (s.threads g).wakeup_phase s.cur_phase)) [
      | inl y ↦
          let asleep = first_sleeps w s g rest f queue in
          let now = put_self s.threads g (record (s.threads g) { state = blocked }) in
          let exact : ((s.threads g).wakeup_phase == s.cur_phase) ≡ true =
            ground (arith, y, deadline g, (armed g asleep).0) in
          let due : w g ≤ s.cur_phase = ground (arith, y, deadline g) in
          let s1 = up w s g rest f queue in
          let same : (u : ℕ) → u ≢ g → s1.threads u ≡ s.threads u = up_other w s g rest f queue in
          rw
            (
              y,
              wake_sleepers,
              exact,
              wakeup_lem (set_state s g blocked) g false
                  (ap (λ x. x.futex_word) now ∙ (armed g asleep).1),
            )
            (Returns-map (wake_sleepers rest s1) (Woken w s1) (Woken w s)
              (wake_sleepers-Woken w rest s1 (up-Fits w s g rest f queue) refl o
                (λ u. elim (ℕ_discrete u g) [
                  | yes e ↦
                      rw e (ap (λ x. x.wakeup_phase) (up_self w s g rest f queue) ∙ deadline g)
                  | no ne ↦ ap (λ x. x.wakeup_phase) (same u ne) ∙ deadline u
                ])
                (λ u st. elim (ℕ_discrete u g) [
                  | yes e ↦ absurd (
                      ground (
                        arith,
                        ap is_sleeping (
                            sym (ap (λ x. x.state) (up_self w s g rest f queue))
                            ∙ subst (λ k. (s1.threads k).state ≡ sleeping) e st),
                      ))
                  | no ne ↦
                      let r = armed u (sym (ap (λ x. x.state) (same u ne)) ∙ st) in
                      (r.0, ap (λ x. x.futex_word) (same u ne) ∙ r.1)
                ]))
              (λ s' t. up-Woken w s g rest f queue s' due t))
      | inr n ↦
          rw (n, wake_sleepers)
            (record {
              fits = f;
              woken = λ u asleep due. absurd (
                  not_yet w g rest u s.cur_phase first (ground (arith, n, deadline g)) due (
                    omega (
                      arith,
                      f.queues.sleeps u,
                      ap (occurs u) queue,
                      ap (λ x. one_if (is_sleeping x)) asleep,
                    )));
              others = λ u late. refl;
              ordered = rw queue (first, o);
              same = refl;
            })
    ]
