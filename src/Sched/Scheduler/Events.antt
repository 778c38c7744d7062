-- ===== src/Sched/Scheduler/Events.antt =====
-- The events of a scheduler: the calls that the states of the threads permit, which keep its invariant.
use cache_sim.Sched.Scheduler.Parting.{off}
use cache_sim.Sched.Scheduler.Promises.{Promises, Frame-Promises}
use cache_sim.Sched.Scheduler.Comeback.{Admitted}
use cache_sim.Sched.Scheduler.Phase.{callback, mark_for_sleep, update_mask, notify_sleep_end}
use cache_sim.Sched.Scheduler.Pick.{Option-cases}
use cache_sim.Sched.Scheduler.Joins.{join-Admitted, Away, end_sleep-Frame}
use cache_sim.Sched.Scheduler.Ends.{PhaseEnded, callback-PhaseEnded, Rested}
use cache_sim.Sched.Scheduler.Leaves.{leave-Left, Left}
use cache_sim.Sched.Scheduler.Frames.{put-Frame, Frame}
use cache_sim.Sched.Scheduler.Fits.{Fits}
use cache_sim.Sched.Scheduler.Handoffs.{handoff-Replaced, Replaced}
use cache_sim.Sched.Scheduler.Moves.{touch-FitsWith}
use cache_sim.Sched.Barrier.Tally.{occurs, one_if}
use cache_sim.Sched.Barrier.Run.{Call}
use cache_sim.Sched.Scheduler.Calls.{leave, join, handoff, any_core, end_sleep}
use cache_sim.Base.{
  Returns, ◌>>=◌, failed, Outcome, done, Returns-map, Returns-assert, ℕ, ◌+◌, ◌^◌, ◌≤◌, ◌<◌, ◌≡◌,
  refl, ap, inl, inr, Bool, true, false, not, Option, none, [], arith, Bool-cases, Returns-else,
  Returns-then, ◌⊎◌,
}
use cache_sim.Sched.Scheduler.{
  is_queued, ThreadState, running, set_thread, queued, Scheduler, ThreadInfo, blocked, sleeping,
}

-- A thread joins, leaves, is behind the barrier in `sync`, is marked for sleep, is awake again before
-- its deadline, or gets a new mask; or the phase ends.
pub data Event : Type 0 where
  comes goes hands rouses : ℕ → Event
  marks : ℕ → ℕ → Event
  remasks : ℕ → (ℕ → Bool) → Event
  ends : (ℕ → ℕ) → Event

abbrev pub quietly : Outcome Scheduler → Outcome (Scheduler × Option Call)
quietly m = m >>= λ s. done (s, none)

abbrev pub occur : Scheduler → Event → Outcome (Scheduler × Option Call)
occur s (comes g) = join s g
occur s (goes g) = leave s g (s.threads g).cid
occur s (hands g) = handoff s g
occur s (marks g phase) = quietly (mark_for_sleep s g phase)
occur s (rouses g) = quietly (notify_sleep_end s g)
occur s (remasks g mask) = quietly (update_mask s g mask)
occur s (ends draw) = quietly (callback draw s)

-- A thread joins while it is away, leaves, syncs or is marked while it runs, wakes while it sleeps or
-- was woken, and gets a new mask, of some core, while it does not wait for a context. A thread that is
-- marked leaves before its deadline, and with the futex that the mark set. The number of phases does
-- not overflow.
abbrev pub Permitted : Scheduler → Event → Type 0
Permitted s (comes g) =
    (s.known g ≡ true) × ((s.threads g).marked_for_sleep ≡ false) × Away (s.threads g).state
Permitted s (goes g) =
    ((s.threads g).state ≡ running)
    × ((s.threads g).marked_for_sleep ≡ true
        → (s.cur_phase < (s.threads g).wakeup_phase) × ((s.threads g).futex_word ≡ 1))
Permitted s (hands g) = (s.threads g).state ≡ running
Permitted s (marks g phase) =
    (s.known g ≡ true) × ((s.threads g).marked_for_sleep ≡ false) × ((s.threads g).state ≡ running)
Permitted s (rouses g) =
    (s.known g ≡ true)
    × ((s.threads g).marked_for_sleep ≡ false)
    × (((s.threads g).state ≡ sleeping) ⊎ ((s.threads g).state ≡ blocked))
Permitted s (remasks g mask) =
    (any_core mask s.num_cores ≡ true) × (is_queued (s.threads g).state ≡ false)
Permitted s (ends draw) = ((k : ℕ) → draw k ≤ k) × (s.cur_phase + 1 < 2 ^ 64)

not_queued : (st : ThreadState) → is_queued st ≡ false → (q : ℕ) → st ≡ queued → q ≡ 0 → ⊥
not_queued st n q e z = absurd (ground (arith, n, ap is_queued e))

off_run_queue : (st : ThreadState) → Away st → is_queued st ≡ false
off_run_queue st (inl e) = rw e refl
off_run_queue st (inr (inl e)) = rw e refl
off_run_queue st (inr (inr (inl e))) = rw e refl
off_run_queue st (inr (inr (inr e))) = rw e refl

abbrev pub Inv : Scheduler → Type 0
Inv s = Fits s × Promises s

quietly-Inv : (m : Outcome Scheduler) → Returns m Inv → Returns (quietly m) (λ r. Inv r.0)
quietly-Inv (done s) i = i
quietly-Inv failed i = i

-- A thread whose context is promised hands it over, and any other just goes on.
hands-Inv :
    (s : Scheduler) (g : ℕ)
    → Inv s
    → (s.threads g).state ≡ running
    → Returns (handoff s g) (λ r. Inv r.0)
unfolding handoff
hands-Inv s g (f, p) was = elim (Option-cases (s.threads g).handoff_thread) [
  | inl e ↦ rw (e, was) (f, p)
  | inr (h, e) ↦
      let w = p.waits g h e in
      Returns-map (handoff s g) (Replaced s g h) (λ r. Inv r.0)
        (handoff-Replaced s g f was h (record { chosen = e; waits = w.0; asleep = w.1; off = w.2 }))
        (λ r d. (d.fits, d.promised p))
]

marks-Inv :
    (s : Scheduler) (g phase : ℕ)
    → Inv s
    → Permitted s (marks g phase)
    → Returns (mark_for_sleep s g phase) Inv
unfolding mark_for_sleep
marks-Inv s g phase (f, p) (known, unmarked, run) =
    let v : ThreadInfo = record (s.threads g) {
      marked_for_sleep = true;
      wakeup_phase = phase;
      futex_word = 1;
    } in
    Returns-assert (s.known g) _ Inv known (
      Returns-assert (not (s.threads g).marked_for_sleep) _ Inv (rw unmarked refl) (
        touch-FitsWith [] s g v f refl refl (λ o. (refl, λ c. refl)),
        Frame-Promises s (set_thread s g v) g p
            (put-Frame s (set_thread s g v) g v refl refl (λ u ne. omega arith))
            (λ st z. not_queued (s.threads g).state (rw run refl) _ st z),
      ))

rouses-Inv :
    (s : Scheduler) (g : ℕ) → Inv s → Permitted s (rouses g) → Returns (notify_sleep_end s g) Inv
unfolding notify_sleep_end
rouses-Inv s g (f, p) (known, unmarked, st) = Returns-assert (s.known g) _ Inv known (
    Returns-assert (not (s.threads g).marked_for_sleep) _ Inv (rw unmarked refl) (elim st [
      | inl e ↦ rw e (
          Returns-map (end_sleep s g) (λ s'. Fits s' × Frame s g s') Inv (end_sleep-Frame s g e f)
            (λ s' w. (
              w.0,
              Frame-Promises s s' g p w.1 (λ q z. not_queued (s.threads g).state (rw e refl) _ q z),
            )))
      | inr e ↦ rw e (f, p)
    ]))

remasks-Inv :
    (s : Scheduler) (g : ℕ) (mask : ℕ → Bool)
    → Inv s
    → Permitted s (remasks g mask)
    → Returns (update_mask s g mask) Inv
unfolding update_mask
remasks-Inv s g mask (f, p) (some_core, off) =
    let v : ThreadInfo = record (s.threads g) { mask = mask } in
    let nowhere : occurs g s.run_queue ≡ 0 = omega (arith, f.queues.runs g, ap one_if off) in
    elim (Bool-cases (s.known g)) [
      | inl y ↦ Returns-then (s.known g) _ _ Inv y (
          Returns-assert (any_core mask s.num_cores) _ Inv some_core (
            touch-FitsWith [] s g v f refl refl (λ o. absurd (omega (arith, nowhere, o))),
            Frame-Promises s (set_thread s g v) g p
                (put-Frame s (set_thread s g v) g v refl refl (λ u ne. omega arith))
                (λ st z. not_queued (s.threads g).state off _ st z),
          ))
      | inr n ↦ Returns-else (s.known g) _ _ Inv n (f, p)
    ]

pub occur-Inv :
    (s : Scheduler) (e : Event)
    → Inv s
    → Rested s
    → Permitted s e
    → Returns (occur s e) (λ r. Inv r.0)
occur-Inv s (comes g) (f, p) rest (known, unmarked, away) =
    Returns-map (join s g) (Admitted s g) (λ r. Inv r.0) (join-Admitted s g f known unmarked away)
      (λ r j. (
        j.fits,
        Frame-Promises s r.0 g p j.frame (λ st z.
            not_queued (s.threads g).state (off_run_queue (s.threads g).state away) _ st z),
      ))
occur-Inv s (goes g) (f, p) rest (run, early) =
    Returns-map (leave s g (s.threads g).cid) (Left s g (s.threads g).cid) (λ r. Inv r.0)
      (leave-Left s g f run)
      (λ r l. (
        l.fits,
        Frame-Promises s r.0 g p l.frame
            (λ st z. not_queued (s.threads g).state (rw run refl) _ st z),
      ))
occur-Inv s (hands g) i rest run = hands-Inv s g i run
occur-Inv s (marks g phase) i rest may =
    quietly-Inv (mark_for_sleep s g phase) (marks-Inv s g phase i may)
occur-Inv s (rouses g) i rest may = quietly-Inv (notify_sleep_end s g) (rouses-Inv s g i may)
occur-Inv s (remasks g mask) i rest may =
    quietly-Inv (update_mask s g mask) (remasks-Inv s g mask i may)
occur-Inv s (ends draw) (f, p) rest (fair, few) = quietly-Inv (callback draw s) (
    Returns-map (callback draw s) (PhaseEnded s) Inv (callback-PhaseEnded s f rest few draw fair)
      (λ s' e. (e.fits, e.promised p)))
