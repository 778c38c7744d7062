-- ===== src/Sched/Scheduler/Still.antt =====
-- What the calls of src/scheduler.h leave of the sleeping threads, as far as the calls return.
use Prim.Native.Nat.{ℕ, ℕ, ℕ, ℕ, ℕ, ℕ, ℕ, ℕ}
use cache_sim.Sched.Barrier.Tally.{count}
use cache_sim.Sched.Scheduler.Pick.{Option-cases}
use cache_sim.Sched.Scheduler.Lists.{put_self, put_other}
use cache_sim.Sched.Scheduler.{
  ThreadState, running, is_used, is_idle, Scheduler, ThreadInfo, put, on, holds, erase, deschedule,
  is_rest, sched_thread, is_thread, steal, sleeping, blocked, may_run, wakeup, schedule, take_free,
  allows, first_fit, find_context, is_sleeping,
}
use cache_sim.Util.InList.{is_null}
use cache_sim.Base.{
  ltb, ◌==◌, Bool-cases, Ensures-else, Ensures, Outcome, Ensures-then, Ensures-map, Ensures->>=,
  Ensures-assert, ℕ, ◌≡◌, refl, sym, ap, ◌∙◌, inl, inr, Bool, false, ◌&&◌, arith, ℕ_discrete,
}

-- No thread falls asleep, and the phases, the queue of the sleeping threads, all deadlines, and the
-- futexes of the sleeping threads are as before.
pub record Still (s s' : Scheduler) : Type 0 where
  pub same_queue : s'.sleep_queue ≡ s.sleep_queue
  pub same_phase : s'.cur_phase ≡ s.cur_phase
  pub same_count : s'.num_phases ≡ s.num_phases
  pub same_deadline : (u : ℕ) → (s'.threads u).wakeup_phase ≡ (s.threads u).wakeup_phase
  pub asleep :
      (u : ℕ)
      → (s'.threads u).state ≡ sleeping
      → ((s.threads u).state ≡ sleeping) × ((s'.threads u).futex_word ≡ (s.threads u).futex_word)

pub Still-refl : (s : Scheduler) → Still s s
Still-refl s = record {
  same_queue = refl;
  same_phase = refl;
  same_count = refl;
  same_deadline = λ u. refl;
  asleep = λ u e. (e, refl);
}

pub Still-∙ : (a b c : Scheduler) → Still a b → Still b c → Still a c
Still-∙ a b c p q = record {
  same_queue = q.same_queue ∙ p.same_queue;
  same_phase = q.same_phase ∙ p.same_phase;
  same_count = q.same_count ∙ p.same_count;
  same_deadline = λ u. q.same_deadline u ∙ p.same_deadline u;
  asleep = λ u e. let y = q.asleep u e in let x = p.asleep u y.0 in (x.0, y.1 ∙ x.1);
}

-- A call on a state that is as before ensures the same of the one before.
pub Ensures-Still :
    {A : Type 0} (at : A → Scheduler) (s s1 : Scheduler) (m : Outcome A)
    → Still s s1
    → Ensures m (λ r. Still s1 (at r))
    → Ensures m (λ r. Still s (at r))
Ensures-Still at s s1 m st e =
    Ensures-map m (λ r. Still s1 (at r)) (λ r. Still s (at r)) e (λ r t. Still-∙ s s1 (at r) st t)

pub awake : (st : ThreadState) → is_sleeping st ≡ false → st ≡ sleeping → ⊥
awake st n e = absurd (ground (arith, n, ap is_sleeping e))

-- One thread changes, and does not fall asleep.
pub put-Still :
    (s s' : Scheduler) (g : ℕ) (v : ThreadInfo)
    → s'.threads ≡ put s.threads g v
    → s'.sleep_queue ≡ s.sleep_queue
    → s'.cur_phase ≡ s.cur_phase
    → s'.num_phases ≡ s.num_phases
    → v.wakeup_phase ≡ (s.threads g).wakeup_phase
    → (v.state ≡ sleeping
        → ((s.threads g).state ≡ sleeping) × (v.futex_word ≡ (s.threads g).futex_word))
    → Still s s'
put-Still s s' g v threads queue phase count deadline asleep = record {
  same_queue = queue;
  same_phase = phase;
  same_count = count;
  same_deadline = λ u. ap (λ t. (t u).wakeup_phase) threads ∙ elim (ℕ_discrete u g) [
    | yes e ↦ rw (e, put_self s.threads g v) deadline
    | no ne ↦ rw (put_other s.threads g u v ne) refl
  ];
  asleep = λ u e.
      let now = ap (λ t. t u) threads in
      elim (ℕ_discrete u g) [
        | yes same ↦
            let here : s'.threads u ≡ v =
              now ∙ ap (put s.threads g v) same ∙ put_self s.threads g v in
            let a = asleep (ap (λ x. x.state) (sym here) ∙ e) in
            (
              ap (λ k. (s.threads k).state) same ∙ a.0,
              ap (λ x. x.futex_word) here ∙ a.1 ∙ ap (λ k. (s.threads k).futex_word) (sym same),
            )
        | no ne ↦
            let there : s'.threads u ≡ s.threads u = now ∙ put_other s.threads g u v ne in
            (ap (λ x. x.state) (sym there) ∙ e, ap (λ x. x.futex_word) there)
      ];
}

pub deschedule-Still :
    (s : Scheduler) (g c : ℕ) (target : ThreadState)
    → is_sleeping target ≡ false
    → Ensures (deschedule s g c target) (Still s)
unfolding deschedule
deschedule-Still s g c target n = Ensures-assert (holds (s.threads g).state) _ (Still s) λ a.
    Ensures-assert (is_used (s.contexts c).state) _ (Still s) λ b.
      Ensures-assert (c == (s.threads g).cid) _ (Still s) λ d.
        Ensures-assert (is_thread (s.contexts c).cur_thread g) _ (Still s) λ e.
          Ensures-assert (is_rest target) _ (Still s) λ f.
            put-Still s _ g (record (s.threads g) { state = target }) refl refl refl refl refl
              (λ z. absurd (awake target n z))

-- The thread that gets the context is awake.
pub schedule-Still :
    (s : Scheduler) (g c : ℕ)
    → Ensures (schedule s g c) (λ s'. Still s s' × (is_sleeping (s'.threads g).state ≡ false))
unfolding schedule
schedule-Still s g c =
    let Q = λ (s' : Scheduler). Still s s' × (is_sleeping (s'.threads g).state ≡ false) in
    Ensures-assert (may_run (s.threads g).state) _ Q λ a.
      Ensures-assert (is_idle (s.contexts c).state) _ Q λ b.
        Ensures-assert (is_null (s.contexts c).cur_thread) _ Q λ d.
          let v : ThreadInfo = record (s.threads g) { state = running; cid = c } in
          (
            put-Still s _ g v refl refl refl refl refl (λ z. absurd (awake running refl z)),
            ap (λ x. is_sleeping x.state) (put_self s.threads g v),
          )

pub wakeup-Still :
    (s : Scheduler) (g : ℕ) (needs_join : Bool)
    → is_sleeping (s.threads g).state ≡ false
    → Ensures (wakeup s g needs_join) (Still s)
unfolding wakeup
wakeup-Still s g needs_join n = Ensures-assert ((s.threads g).futex_word == 1) _ (Still s) λ a.
    put-Still s _ g (record (s.threads g) { needs_join = needs_join; futex_word = 0 }) refl refl
      refl refl refl (λ z. absurd (awake (s.threads g).state n z))

-- Only the lists of contexts and of the threads that wait or are out change.
pub lists-Still :
    (s s' : Scheduler)
    → s'.threads ≡ s.threads
    → s'.sleep_queue ≡ s.sleep_queue
    → s'.cur_phase ≡ s.cur_phase
    → s'.num_phases ≡ s.num_phases
    → Still s s'
lists-Still s s' threads queue phase count = record {
  same_queue = queue;
  same_phase = phase;
  same_count = count;
  same_deadline = λ u. ap (λ t. (t u).wakeup_phase) threads;
  asleep = λ u e. (ap (λ t. (t u).state) (sym threads) ∙ e, ap (λ t. (t u).futex_word) threads);
}

pub take_free-Still : (s : Scheduler) (c : ℕ) → Ensures (take_free s c) (λ r. Still s r.1)
take_free-Still s c =
    Ensures-assert (on c s.free_list) _ (λ r. Still s r.1) λ a. lists-Still s _ refl refl refl refl

steal-Still : (s : Scheduler) (g : ℕ) → Ensures (steal s g) (λ r. Still s r.1)
unfolding steal
steal-Still s g =
    elim (Option-cases (first_fit (λ o. (s.threads g).mask (s.threads o).cid) s.out_queue)) [
      | inl e ↦ rw (steal, e) (Still-refl s)
      | inr (o, e) ↦
          let s1 = record s { out_queue = erase o s.out_queue } in
          rw (steal, e)
            (Ensures->>= (deschedule s1 o (s.threads o).cid blocked) _ (Still s1) (λ r. Still s r.1)
              (deschedule-Still s1 o (s.threads o).cid blocked refl)
              (λ s' t. Still-∙ s s1 s' (lists-Still s s1 refl refl refl refl) t))
    ]

find_context-Still : (s : Scheduler) (g : ℕ) → Ensures (find_context s g) (λ r. Still s r.1)
unfolding find_context
find_context-Still s g =
    let c = (s.threads g).cid in
    elim (Bool-cases (is_idle (s.contexts c).state && (s.threads g).mask c)) [
      | inl y ↦ Ensures-then _ (take_free s c) _ (λ r. Still s r.1) y (take_free-Still s c)
      | inr n ↦
          Ensures-else _ (take_free s c) _ (λ r. Still s r.1) n
            (elim (Option-cases (first_fit (s.threads g).mask s.free_list)) [
              | inl e ↦ rw e (steal-Still s g)
              | inr (d, e) ↦ rw e (take_free-Still s d)
            ])
    ]

pub sched_thread-Still : (s : Scheduler) (g : ℕ) → Ensures (sched_thread s g) (λ r. Still s r.1)
unfolding sched_thread
sched_thread-Still s g =
    Ensures-assert (ltb (s.threads g).cid s.num_cores) _ (λ r. Still s r.1)
      λ a.
        Ensures->>= (find_context s g) _ (λ r. Still s r.1) (λ r. Still s r.1)
          (find_context-Still s g)
          (λ r t. Ensures-assert (allows (s.threads g).mask r.0) _ (λ r. Still s r.1) (λ b. t))
