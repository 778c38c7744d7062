-- ===== src/Timing/Life.antt =====
-- What can happen to an event that is no `DelayEvent` and no `CrossingEvent`, from its construction on.
use cache_sim.Timing.Run.{
  hold, start_run, queue, requeue, release, is_held, finish, parent_done, is_running,
}
use cache_sim.Base.{
  decrement, Bool-cases, ◌==◌, Ensures, Ensures-then, done, Ensures-else, Ensures-assert, ℕ, ◌+◌,
  ◌<◌, ◌≡◌, inl, inr, true, not, ◌&&◌, ◌||◌, Option, arith, leb, refl, subst, false,
}
use cache_sim.Timing.{
  ev_queued, ev_none, TimingEvent, is_none, is_queued, ev_done, EventState, ev_held, ev_invalid,
  ev_running, new_event,
}

-- The calls on an event, with the guards that its callers keep: children are added to events that were
-- not queued, and the simulator runs what it took from its queue.
pub data Life : TimingEvent → Type 0 where
  born :
      (pre_delay post_delay : ℕ) (domain : Option ℕ) → Life (new_event pre_delay post_delay domain)
  child_added :
      {ev : TimingEvent}
      → Life ev
      → ev.state ≡ ev_none
      → Life (record ev { num_parents = ev.num_parents + 1 })
  told_done :
      {ev : TimingEvent}
      → Life ev
      → (c : ℕ) (r : TimingEvent × Option ℕ) → parent_done ev c ≡ done r
      → Life r.0
  queues :
      {ev : TimingEvent}
      → Life ev
      → (c : ℕ) (r : TimingEvent × Option ℕ) → queue ev c ≡ done r
      → Life r.0
  requeues :
      {ev : TimingEvent}
      → Life ev
      → (c : ℕ) (r : TimingEvent × Option ℕ) → requeue ev c ≡ done r
      → Life r.0
  runs :
      {ev : TimingEvent}
      → Life ev
      → (c : ℕ) (ev' : TimingEvent) → ev.state ≡ ev_queued
      → start_run ev c ≡ done ev'
      → Life ev'
  holds : {ev : TimingEvent} → Life ev → (ev' : TimingEvent) → hold ev ≡ done ev' → Life ev'
  releases : {ev : TimingEvent} → Life ev → (ev' : TimingEvent) → release ev ≡ done ev' → Life ev'
  finishes :
      {ev : TimingEvent} → Life ev → (c : ℕ) (r : TimingEvent × ℕ) → finish ev c ≡ done r → Life r.0

-- An event with parents that are not done was neither queued nor run.
abbrev pub Waits : TimingEvent → Type 0
Waits ev = 0 < ev.num_parents → ev.state ≡ ev_none

parent_done-Waits :
    (ev : TimingEvent) (c : ℕ) → Waits ev → Ensures (parent_done ev c) (λ r. Waits r.0)
unfolding parent_done
parent_done-Waits ev c w = Ensures-assert (not (ev.num_parents == 0)) _ _ λ some_parent.
    elim (Bool-cases (decrement ev.num_parents == 0)) [
      | inl last ↦
          Ensures-then (decrement ev.num_parents == 0) _ _ _ last
            (Ensures-assert (is_none ev.state) _ _ λ st p. absurd (ground (arith, last, p)))
      | inr more ↦
          Ensures-else (decrement ev.num_parents == 0) _ _ _ more
            (λ p. w (ground (arith, some_parent)))
    ]

no_parents_Waits : (ev : TimingEvent) → (ev.num_parents == 0) ≡ true → 0 < ev.num_parents → ⊥
no_parents_Waits ev e p = ground (arith, e, p)

queue-Waits : (ev : TimingEvent) (c : ℕ) → Ensures (queue ev c) (λ r. Waits r.0)
unfolding queue
queue-Waits ev c =
    Ensures-assert (is_none ev.state && (ev.num_parents == 0)) _ _
      λ e p. absurd (ground (arith, e, p))

requeue-Waits : (ev : TimingEvent) (c : ℕ) → Ensures (requeue ev c) (λ r. Waits r.0)
unfolding requeue
requeue-Waits ev c = Ensures-assert (ev.num_parents == 0) _ _ λ e.
    Ensures-assert (is_running ev.state || is_held ev.state) _ _
      λ f p. absurd (no_parents_Waits ev e p)

-- An event that is past waiting has no parents left.
past : (ev : TimingEvent) → is_none ev.state ≡ false → Waits ev → 0 < ev.num_parents → ⊥
past ev st w p = let waiting : is_none ev.state ≡ true = rw (w p) refl in cc

running_past : (s : EventState) → is_running s ≡ true → is_none s ≡ false
running_past ev_running e = refl
running_past ev_invalid e = cc
running_past ev_none e = cc
running_past ev_queued e = cc
running_past ev_held e = cc
running_past ev_done e = cc

held_past : (s : EventState) → is_held s ≡ true → is_none s ≡ false
held_past ev_held e = refl
held_past ev_invalid e = cc
held_past ev_none e = cc
held_past ev_queued e = cc
held_past ev_running e = cc
held_past ev_done e = cc

start_run-Waits :
    (ev : TimingEvent) (c : ℕ) → ev.state ≡ ev_queued → Waits ev → Ensures (start_run ev c) Waits
unfolding start_run
start_run-Waits ev c q w =
    Ensures-assert (is_none ev.state || is_queued ev.state) _ Waits
      λ e. Ensures-assert (leb ev.min_start_cycle c) _ Waits λ f p. absurd (past ev (rw q refl) w p)

hold-Waits : (ev : TimingEvent) → Waits ev → Ensures (hold ev) Waits
unfolding hold
hold-Waits ev w =
    Ensures-assert (is_running ev.state) _ Waits
      λ e p. absurd (past ev (running_past ev.state e) w p)

release-Waits : (ev : TimingEvent) → Waits ev → Ensures (release ev) Waits
unfolding release
release-Waits ev w =
    Ensures-assert (is_held ev.state) _ Waits λ e p. absurd (past ev (held_past ev.state e) w p)

finish-Waits : (ev : TimingEvent) (c : ℕ) → Waits ev → Ensures (finish ev c) (λ r. Waits r.0)
unfolding finish
finish-Waits ev c w =
    Ensures-assert (is_running ev.state) _ (λ r. Waits r.0)
      λ e p. absurd (past ev (running_past ev.state e) w p)

-- Through its whole life, an event with a parent that is not done was neither queued nor run, held or
-- done.
pub Life-Waits : {ev : TimingEvent} → Life ev → 0 < ev.num_parents → ev.state ≡ ev_none
Life-Waits (born pre_delay post_delay domain) p = refl
Life-Waits (child_added {ev} l st) p = st
Life-Waits (told_done {ev} l c r e) p =
    subst (λ m. Ensures m (λ r. Waits r.0)) e (parent_done-Waits ev c (Life-Waits l)) p
Life-Waits (queues {ev} l c r e) p = subst (λ m. Ensures m (λ r. Waits r.0)) e (queue-Waits ev c) p
Life-Waits (requeues {ev} l c r e) p =
    subst (λ m. Ensures m (λ r. Waits r.0)) e (requeue-Waits ev c) p
Life-Waits (runs {ev} l c ev' q e) p =
    subst (λ m. Ensures m Waits) e (start_run-Waits ev c q (Life-Waits l)) p
Life-Waits (holds {ev} l ev' e) p = subst (λ m. Ensures m Waits) e (hold-Waits ev (Life-Waits l)) p
Life-Waits (releases {ev} l ev' e) p =
    subst (λ m. Ensures m Waits) e (release-Waits ev (Life-Waits l)) p
Life-Waits (finishes {ev} l c r e) p =
    subst (λ m. Ensures m (λ r. Waits r.0)) e (finish-Waits ev c (Life-Waits l)) p
