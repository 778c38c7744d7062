-- ===== src/Sched/Scheduler/Fits.antt =====
-- The invariant of the scheduler. Between two steps of an operation some contexts are in limbo: idle,
-- and on no list.
use cache_sim.Sched.Scheduler.Lists.{put_other, put_self}
use cache_sim.Sched.Barrier.Tally.{one_if, occurs, count}
use cache_sim.Base.{
  ltb, ℕ, ◌+◌, ◌^◌, ◌≤◌, ◌<◌, ◌≡◌, subst, ◌≢◌, ◌⊎◌, inl, inr, true, ◌&&◌, List, [], ℕ_discrete,
}
use cache_sim.Sched.Scheduler.{
  is_queued, running, is_idle, ContextInfo, idle_context, put, is_out, ThreadInfo, holds,
  is_sleeping, Scheduler, used_by, range_from, is_used,
}

-- Which lists a thread is on, and that one that waits for a context sleeps until it is woken.
pub record Queues (ts : ℕ → ThreadInfo) (run out sleep : List ℕ) : Type 0 where
  pub runs : (g : ℕ) → occurs g run ≤ one_if (is_queued (ts g).state)
  pub outs : (g : ℕ) → occurs g out ≡ one_if (is_out (ts g).state)
  pub sleeps : (g : ℕ) → occurs g sleep ≡ one_if (is_sleeping (ts g).state)
  pub armed : (g : ℕ) → 0 < occurs g run → (ts g).futex_word ≡ 1

-- A context is idle, or the thread that has it knows so.
abbrev pub Seat : (ℕ → ThreadInfo) → (ℕ → ContextInfo) → ℕ → Type 0
Seat ts cs c =
    (cs c ≡ idle_context)
    ⊎ ((g : ℕ) × (cs c ≡ used_by g) × (holds (ts g).state ≡ true) × ((ts g).cid ≡ c))

pub record Seats (n : ℕ) (ts : ℕ → ThreadInfo) (cs : ℕ → ContextInfo) (limbo free : List ℕ)
    (scheduled : ℕ) : Type 0 where
  pub seat : (c : ℕ) → Seat ts cs c
  pub held : (g : ℕ) → holds (ts g).state ≡ true → ((ts g).cid < n) × (cs (ts g).cid ≡ used_by g)
  pub vacant : (c : ℕ) → occurs c limbo + occurs c free ≡ one_if (ltb c n && is_idle (cs c).state)
  pub counted : scheduled ≡ count (λ c. is_used (cs c).state) (range_from 0 n)

-- A context that a running thread has.
abbrev pub Busy : (ℕ → ThreadInfo) → (ℕ → ContextInfo) → ℕ → Type 0
Busy ts cs c = (g : ℕ) × (cs c ≡ used_by g) × ((ts g).state ≡ running)

-- No thread waits for a context that is idle, or that a thread keeps which left.
abbrev pub Served : ℕ → (ℕ → ThreadInfo) → (ℕ → ContextInfo) → List ℕ → List ℕ → Type 0
Served n ts cs limbo run =
    (g c : ℕ) → 0 < occurs g run → c < n → (ts g).mask c ≡ true → occurs c limbo ≡ 0 → Busy ts cs c

pub record FitsWith (limbo : List ℕ) (s : Scheduler) : Type 0 where
  pub queues : Queues s.threads s.run_queue s.out_queue s.sleep_queue
  pub seats : Seats s.num_cores s.threads s.contexts limbo s.free_list s.scheduled_threads
  pub served : Served s.num_cores s.threads s.contexts limbo s.run_queue
  pub in_range : (g : ℕ) → (s.threads g).cid < s.num_cores
  pub small : s.num_cores < 2 ^ 32

abbrev pub Fits : Scheduler → Type 0
Fits = FitsWith []

module _ (ts : ℕ → ThreadInfo) (run out sleep run' out' sleep' : List ℕ) (g : ℕ)
    (v : ThreadInfo) where
  -- A thread that changes, and the lists with it.
  pub put-Queues :
      Queues ts run out sleep
      → ((u : ℕ) → u ≢ g → occurs u run' ≡ occurs u run)
      → ((u : ℕ) → u ≢ g → occurs u out' ≡ occurs u out)
      → ((u : ℕ) → u ≢ g → occurs u sleep' ≡ occurs u sleep)
      → occurs g run' ≤ one_if (is_queued v.state)
      → occurs g out' ≡ one_if (is_out v.state)
      → occurs g sleep' ≡ one_if (is_sleeping v.state)
      → (0 < occurs g run' → v.futex_word ≡ 1)
      → Queues (put ts g v) run' out' sleep'
  put-Queues q same_run same_out same_sleep run_g out_g sleep_g armed_g = record {
    runs = λ u. elim (ℕ_discrete u g) [
      | yes e ↦ rw (e, put_self ts g v) run_g
      | no ne ↦ rw (put_other ts g u v ne, same_run u ne) (q.runs u)
    ];
    outs = λ u. elim (ℕ_discrete u g) [
      | yes e ↦ rw (e, put_self ts g v) out_g
      | no ne ↦ rw (put_other ts g u v ne, same_out u ne) (q.outs u)
    ];
    sleeps = λ u. elim (ℕ_discrete u g) [
      | yes e ↦ rw (e, put_self ts g v) sleep_g
      | no ne ↦ rw (put_other ts g u v ne, same_sleep u ne) (q.sleeps u)
    ];
    armed = λ u. elim (ℕ_discrete u g) [
      | yes e ↦ rw (e, put_self ts g v) armed_g
      | no ne ↦ rw (put_other ts g u v ne, same_run u ne) (q.armed u)
    ];
  }

module _ (n : ℕ) (ts : ℕ → ThreadInfo) (cs : ℕ → ContextInfo) (limbo : List ℕ) (g : ℕ)
    (v : ThreadInfo) where
  -- A thread that changes, and has a context as before.
  pub put-Seats :
      (free : List ℕ) (scheduled : ℕ)
      → Seats n ts cs limbo free scheduled
      → v.cid ≡ (ts g).cid
      → holds v.state ≡ holds (ts g).state
      → Seats n (put ts g v) cs limbo free scheduled
  put-Seats free scheduled s same_cid same_holds = record {
    seat = λ c. elim (s.seat c) [
      | inl e ↦ inl e
      | inr (h, e, hold, at) ↦ elim (ℕ_discrete h g) [
        | yes same ↦ inr (
          h,
          e,
          rw (same, put_self ts g v, same_holds) (subst (λ u. holds (ts u).state ≡ true) same hold),
          rw (same, put_self ts g v, same_cid) (subst (λ u. (ts u).cid ≡ c) same at),
        )
        | no ne ↦ inr (h, e, rw (put_other ts g h v ne) hold, rw (put_other ts g h v ne) at)
      ]
    ];
    held = λ u. elim (ℕ_discrete u g) [
      | yes e ↦ rw (e, put_self ts g v, same_cid, same_holds) (s.held g)
      | no ne ↦ rw (put_other ts g u v ne) (s.held u)
    ];
    vacant = s.vacant;
    counted = s.counted;
  }

  -- Busy contexts stay so when the thread does not stop.
  pub put-Busy :
      (c : ℕ) → ((ts g).state ≡ running → v.state ≡ running) → Busy ts cs c → Busy (put ts g v) cs c
  put-Busy c stays (h, e, r) = elim (ℕ_discrete h g) [
    | yes same ↦
        (h, e, rw (same, put_self ts g v) (stays (subst (λ u. (ts u).state ≡ running) same r)))
    | no ne ↦ (h, e, rw (put_other ts g h v ne) r)
  ]
