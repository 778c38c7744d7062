-- ===== src/Sched/Scheduler/Settled.antt =====
-- The calls of src/scheduler.h that seat threads and take contexts from them, as far as they return,
-- leave the sleeping threads alone.
use cache_sim.Sched.Scheduler.Still.{
  Ensures-Still, schedule-Still, lists-Still, Still-refl, wakeup-Still, awake, put-Still,
  deschedule-Still, Still-∙, Still, sched_thread-Still,
}
use cache_sim.Sched.Scheduler.Pick.{Option-cases}
use cache_sim.Sched.Scheduler.Lists.{put_self}
use cache_sim.Sched.Scheduler.Calls.{
  leave_lazily, handoff_to, take_over, seat_or_queue, give_up, pass_on, come_back, queue_up,
  hand_over,
}
use cache_sim.Sched.Scheduler.{
  running, is_running, on, set_thread, ThreadInfo, deschedule, Scheduler, is_sleeping, first_fit,
  queued, out, wakeup, is_started, schedule, set_state, is_blocked, wait_for_context, sched_context,
  is_out, sched_thread, unlinked, blocked,
}
use cache_sim.Base.{
  Bool-cases, Ensures-assert, Ensures-else, Ensures, Ensures->>=, Ensures-then, ◌>>=◌, ℕ, ◌≡◌, refl,
  ap, inl, inr, false, not, ◌||◌, Option, none, some, [], ◌∷◌, ◌++◌,
}

queue_up-Still : (s : Scheduler) (g : ℕ) → Ensures (queue_up s g) (λ r. Still s r.0)
unfolding queue_up
queue_up-Still s g =
    let s1 = set_state s g queued in
    let s2 = record s1 { run_queue = s1.run_queue ++ (g ∷ []) } in
    let v : ThreadInfo = record (s.threads g) { state = queued } in
    let w : ThreadInfo = record (s2.threads g) { futex_word = 1 } in
    let now : (s2.threads g).state ≡ queued = ap (λ x. x.state) (put_self s.threads g v) in
    Ensures-assert (unlinked s1 g) _ (λ r. Still s r.0)
      λ a.
        Still-∙ s s2 (wait_for_context s2 g)
          (put-Still s s2 g v refl refl refl refl refl (λ z. absurd (awake queued refl z)))
          (put-Still s2 _ g w refl refl refl refl refl
            (λ z. absurd (awake (s2.threads g).state (rw now refl) z)))

pub seat_or_queue-Still :
    (g : ℕ) (r : Option ℕ × Scheduler) → Ensures (seat_or_queue g r) (λ r'. Still r.1 r'.0)
unfolding seat_or_queue
seat_or_queue-Still g (some c, s) =
    Ensures->>= (schedule s g c) _ (λ s'. Still s s' × (is_sleeping (s'.threads g).state ≡ false))
      (λ r. Still s r.0) (schedule-Still s g c) (λ s' t. t.0)
seat_or_queue-Still g (none, s) = queue_up-Still s g

pub find_seat-Still :
    (s : Scheduler) (g : ℕ)
    → Ensures (sched_thread s g >>= λ r. seat_or_queue g r) (λ r. Still s r.0)
find_seat-Still s g =
    Ensures->>= (sched_thread s g) _ (λ r. Still s r.1) (λ r. Still s r.0) (sched_thread-Still s g)
      (λ r t. Ensures-Still (λ q. q.0) s r.1 (seat_or_queue g r) t (seat_or_queue-Still g r))

pub come_back-Still : (s : Scheduler) (g : ℕ) → Ensures (come_back s g) (λ r. Still s r.0)
unfolding come_back
come_back-Still s g = elim (Bool-cases (is_out (s.threads g).state)) [
  | inl y ↦
      Ensures-then (is_out (s.threads g).state) _ _ (λ r. Still s r.0) y
        (Ensures-assert (on g s.out_queue) _ (λ r. Still s r.0)
          λ a.
            put-Still s _ g (record (s.threads g) { state = running }) refl refl refl refl refl
              (λ z. absurd (awake running refl z)))
  | inr n ↦
      Ensures-else (is_out (s.threads g).state) _ _ (λ r. Still s r.0) n
        (Ensures-assert (is_blocked (s.threads g).state || is_started (s.threads g).state) _
          (λ r. Still s r.0) λ a. find_seat-Still s g)
]

-- A thread gets a context and wakes.
seat_and_wake-Still :
    (s : Scheduler) (h c : ℕ) → Ensures (schedule s h c >>= λ s1. wakeup s1 h false) (Still s)
seat_and_wake-Still s h c =
    Ensures->>= (schedule s h c) _ (λ s'. Still s s' × (is_sleeping (s'.threads h).state ≡ false))
      (Still s) (schedule-Still s h c)
      (λ s1 t. Ensures-Still (λ q. q) s s1 (wakeup s1 h false) t.0 (wakeup-Still s1 h false t.1))

take_over-Still : (s : Scheduler) (h c : ℕ) → Ensures (take_over s h c) (λ r. Still s r.0)
unfolding take_over
take_over-Still s h c =
    Ensures->>= (schedule s h c) _ (λ s'. Still s s' × (is_sleeping (s'.threads h).state ≡ false))
      (λ r. Still s r.0) (schedule-Still s h c)
      (λ s1 t.
        Ensures->>= (wakeup s1 h false) _ (Still s1) (λ r. Still s r.0)
          (wakeup-Still s1 h false t.1) (λ s2 u. Still-∙ s s1 s2 t.0 u))

give_up-Still : (s : Scheduler) (c : ℕ) → Ensures (give_up s c) (λ r. Still s r.0)
unfolding give_up
give_up-Still s c =
    Ensures-assert (not (on c s.free_list)) _ (λ r. Still s r.0)
      λ a. lists-Still s _ refl refl refl refl

pub pass_on-Still :
    (c : ℕ) (r : Option ℕ × Scheduler) → Ensures (pass_on c r) (λ r'. Still r.1 r'.0)
pass_on-Still c (some h, s) = take_over-Still s h c
pass_on-Still c (none, s) = give_up-Still s c

pub sched_context-Still : (s : Scheduler) (c : ℕ) → Still s (sched_context s c).1
unfolding sched_context
sched_context-Still s c = elim (Option-cases (first_fit (λ g. (s.threads g).mask c) s.run_queue)) [
  | inl e ↦ rw (sched_context, e) (Still-refl s)
  | inr (g, e) ↦ rw (sched_context, e) (lists-Still s _ refl refl refl refl)
]

pub leave_lazily-Still :
    (g c : ℕ) (r : Option ℕ × Scheduler) → Ensures (leave_lazily g c r) (λ r'. Still r.1 r'.0)
unfolding leave_lazily
leave_lazily-Still g c (some h, s) =
    Ensures->>= (deschedule s g c blocked) _ (Still s) (λ r. Still s r.0)
      (deschedule-Still s g c blocked refl)
      (λ s' t. Ensures-Still (λ q. q.0) s s' (take_over s' h c) t (take_over-Still s' h c))
leave_lazily-Still g c (none, s) = elim (Bool-cases ((s.threads g).mask (s.threads g).cid)) [
  | inl y ↦
      Ensures-then ((s.threads g).mask (s.threads g).cid) _ _ (λ r. Still s r.0) y
        (Ensures-assert (unlinked s g) _ (λ r. Still s r.0)
          λ a.
            put-Still s _ g (record (s.threads g) { state = out }) refl refl refl refl refl
              (λ z. absurd (awake out refl z)))
  | inr n ↦
      Ensures-else ((s.threads g).mask (s.threads g).cid) _ _ (λ r. Still s r.0) n
        (Ensures->>= (deschedule s g c blocked) _ (Still s) (λ r. Still s r.0)
          (deschedule-Still s g c blocked refl)
          (λ s' t. Ensures-Still (λ q. q.0) s s' (give_up s' c) t (give_up-Still s' c)))
]

hand_over-Still : (s : Scheduler) (g dst c : ℕ) → Ensures (hand_over s g dst c) (Still s)
unfolding hand_over
hand_over-Still s g dst c =
    let v : ThreadInfo = record (s.threads g) { handoff_thread = none } in
    let s1 = set_thread s g v in
    let t1 = put-Still s s1 g v refl refl refl refl refl (λ z. (z, refl)) in
    Ensures->>= (deschedule s1 g c queued) _ (Still s1) (Still s)
      (deschedule-Still s1 g c queued refl)
      (λ s2 t2.
        Ensures-Still (λ q. q) s s2 (schedule s2 dst c >>= λ s3. wakeup s3 dst false)
          (Still-∙ s s1 s2 t1 t2) (seat_and_wake-Still s2 dst c))

pub handoff_to-Still :
    (s : Scheduler) (g : ℕ) (o : Option ℕ) → Ensures (handoff_to s g o) (λ r. Still s r.0)
handoff_to-Still s g none =
    Ensures-assert (is_running (s.threads g).state) _ (λ r. Still s r.0) λ a. Still-refl s
handoff_to-Still s g (some dst) =
    let c = (s.threads g).cid in
    Ensures->>= (hand_over s g dst c) _ (Still s) (λ r. Still s r.0) (hand_over-Still s g dst c)
      (λ s1 t.
        Ensures-Still (λ q. q.0) s s1 (sched_thread s1 g >>= λ r. seat_or_queue g r) t
          (find_seat-Still s1 g))
