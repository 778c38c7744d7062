-- ===== src/Sched/Barrier/Run.antt =====
-- A barrier over time: joins, and leaves and syncs of running threads, in any order.
use cache_sim.Sched.Barrier.Sound.{Listed, tally, waiting-counted, counts-total}
use cache_sim.Sched.Barrier.Wake.{turns}
use cache_sim.Sched.Barrier.Steps.{Advanced, leave-Advanced, sync-Advanced}
use cache_sim.Sched.Barrier.Join.{join-Joined, Joined}
use cache_sim.Sched.Barrier.Awake.{Awake}
use cache_sim.Sched.Barrier.{
  is_running, is_left, is_waiting, sync, Barrier, join, leave, running, offline, new_barrier, left,
  waiting,
}
use cache_sim.Base.{
  Returns-map, done, Outcome, Returns, ℕ, ◌≤◌, ◌<◌, ◌≡◌, refl, subst, ◌∙◌, ◌⊎◌, inr, arith,
  Returns-result, length, suc, ◌+◌, ◌-◌, ap, inl,
}

-- A call of the barrier.
pub data Call : Type 0 where
  joins leaves syncs : ℕ → Call

module _ {W : Type 0} (callback : W → W) where
  abbrev pub call : (ℕ → ℕ) → Barrier W → Call → Outcome (Barrier W)
  call draw b (joins t) = join callback draw b t
  call draw b (leaves t) = leave callback draw b t
  call draw b (syncs t) = sync callback draw b t

-- A thread joins when it is off the barrier or left it, and it leaves or syncs while it runs. The code
-- of `leave` also takes a thread that waits, which is no call here.
abbrev pub May : {W : Type 0} → Barrier W → Call → Type 0
May b (joins t) = ((b.thread_list t).state ≡ offline) ⊎ ((b.thread_list t).state ≡ left)
May b (leaves t) = (b.thread_list t).state ≡ running
May b (syncs t) = (b.thread_list t).state ≡ running

module _ {W : Type 0} (callback : W → W) (parallel_threads : ℕ) where
  -- The barriers that calls lead to. Each call has random numbers of its own.
  pub data Reachable : Barrier W → Type 0 where
    fresh : (garbage : ℕ → ℕ) (sched : W) → Reachable (new_barrier parallel_threads garbage sched)
    step :
        {b b' : Barrier W}
        → Reachable b
        → (draw : ℕ → ℕ) (c : Call) → ((i : ℕ) → draw i ≤ i)
        → May b c
        → call callback draw b c ≡ done b'
        → Reachable b'

  -- A call that is permitted of a barrier that is awake returns one that is.
  call-Awake :
      (draw : ℕ → ℕ) (b : Barrier W) (c : Call)
      → ((i : ℕ) → draw i ≤ i)
      → 0 < parallel_threads
      → Awake b × (b.parallel_threads ≡ parallel_threads)
      → May b c
      → Returns (call callback draw b c) (λ b'. Awake b' × (b'.parallel_threads ≡ parallel_threads))
  call-Awake draw b (joins t) fair par (aw, same) may =
      Returns-map _ (Joined b) _ (join-Joined callback draw b t fair aw (rw same par) may)
        (λ b' j. (j.awake, j.same_parallel ∙ same))
  call-Awake draw b (leaves t) fair par (aw, same) may =
      Returns-map _ (Advanced callback b) _
        (leave-Advanced callback draw fair b t aw (rw same par) may)
        (λ b' j. (j.awake, j.same_parallel ∙ same))
  call-Awake draw b (syncs t) fair par (aw, same) may =
      Returns-map _ (Advanced callback b) _
        (sync-Advanced callback draw fair b t aw (rw same par) may)
        (λ b' j. (j.awake, j.same_parallel ∙ same))

  fresh-Awake :
      (garbage : ℕ → ℕ) (sched : W)
      → 0 < parallel_threads
      → Awake (new_barrier parallel_threads garbage sched)
  unfolding new_barrier
  fresh-Awake garbage sched par = record {
    sound = record {
      listed = λ t. refl;
      recorded = λ t h. cc;
      armed = λ t h. cc;
      cur_le = omega arith;
      running_count = refl;
      left_count = refl;
      limited = omega arith;
    };
    full = inr refl;
    busy = inr refl;
  }

  pub Reachable-Awake :
      {b : Barrier W}
      → 0 < parallel_threads
      → Reachable b
      → Awake b × (b.parallel_threads ≡ parallel_threads)
  unfolding new_barrier
  Reachable-Awake par (fresh garbage sched) = (fresh-Awake garbage sched par, refl)
  Reachable-Awake par (step {b} {b'} r draw c fair may e) =
      subst (λ m. Returns m (λ b'. Awake b' × (b'.parallel_threads ≡ parallel_threads))) e
        (call-Awake draw b c fair par (Reachable-Awake par r) may)

  -- When at least one thread may run: a thread of a barrier that permitted calls lead to waits only
  -- while another runs, and either as many threads run as may, or every thread of the run list had its
  -- turn in this phase. No more threads run than may.
  pub Reachable-waits :
      {b : Barrier W} (t : ℕ)
      → 0 < parallel_threads
      → Reachable b
      → (b.thread_list t).state ≡ waiting
      → (0 < b.running_threads)
        × (b.running_threads ≤ parallel_threads)
        × ((b.running_threads ≡ parallel_threads) ⊎ (b.cur_thread_idx ≡ length b.run_list))
  Reachable-waits {b} t par r w =
      let (aw, same) = Reachable-Awake par r in
      let some_wait = waiting-counted b t aw.sound w in
      let total = counts-total b aw.sound in
      let limit = aw.sound.limited in
      (
        (elim aw.busy [
          | inl go ↦ go
          | inr all_left ↦ absurd (omega (arith, some_wait, total, all_left))
        ]),
        omega (arith, limit, same),
        (elim aw.full [ inl most ↦ inl (most ∙ same) | inr turned ↦ inr turned ]),
      )

  -- When at least one thread may run: the run list of a reachable barrier holds each thread that is not offline once and no other; the
  -- counters of running and left threads are right, and the rest of the list are the threads that wait.
  pub Reachable-counts :
      {b : Barrier W}
      → 0 < parallel_threads
      → Reachable b
      → Listed b.run_list b.thread_list
        × (b.running_threads ≡ tally is_running b.thread_list b.run_list)
        × (b.left_threads ≡ tally is_left b.thread_list b.run_list)
        × (length b.run_list - b.running_threads - b.left_threads
            ≡ tally is_waiting b.thread_list b.run_list)
  Reachable-counts {b} par r =
      let so = (Reachable-Awake par r).0.sound in
      (so.listed, so.running_count, so.left_count, omega (arith, counts-total b so))

  -- When at least one thread may run: a permitted call (a join of a thread that is offline or left, a
  -- leave or a sync of one that runs) of a barrier that such calls lead to trips no assertion, and
  -- returns such a barrier.
  pub Reachable-call :
      {b : Barrier W} (draw : ℕ → ℕ) (c : Call)
      → ((i : ℕ) → draw i ≤ i)
      → 0 < parallel_threads
      → Reachable b
      → May b c
      → Returns (call callback draw b c) Reachable
  Reachable-call {b} draw c fair par r may =
      Returns-result _ _ Reachable (call-Awake draw b c fair par (Reachable-Awake par r) may)
        (λ b' e. step r draw c fair may e)

  -- Running threads that sync or leave, one after the other.
  pub data Stops : ℕ → Barrier W → Barrier W → Type 0 where
    no_stop : (b : Barrier W) → Stops 0 b b
    sync_stop :
        {n : ℕ} {b b1 b2 : Barrier W}
        → Stops n b b1
        → (draw : ℕ → ℕ) (t : ℕ) → ((i : ℕ) → draw i ≤ i)
        → (b1.thread_list t).state ≡ running
        → sync callback draw b1 t ≡ done b2
        → Stops (suc n) b b2
    leave_stop :
        {n : ℕ} {b b1 b2 : Barrier W}
        → Stops n b b1
        → (draw : ℕ → ℕ) (t : ℕ) → ((i : ℕ) → draw i ≤ i)
        → (b1.thread_list t).state ≡ running
        → leave callback draw b1 t ≡ done b2
        → Stops (suc n) b b2

  module _ (phases : W → ℕ) (counts : (w : W) → phases (callback w) ≡ suc (phases w)) where
    -- What `n` stops bring about.
    record Nearer (n : ℕ) (b b' : Barrier W) : Type 0 where
      awake : Awake b'
      same_parallel : b'.parallel_threads ≡ parallel_threads
      nearer :
          ((phases b'.sched ≡ phases b.sched) × (n + turns b' ≤ turns b))
          ⊎ (phases b.sched < phases b'.sched)

    Advanced-Nearer :
        (n : ℕ) (b b1 b2 : Barrier W)
        → Nearer n b b1
        → Advanced callback b1 b2
        → Nearer (suc n) b b2
    Advanced-Nearer n b b1 b2 ne ad = record {
      awake = ad.awake;
      same_parallel = ad.same_parallel ∙ ne.same_parallel;
      nearer = elim ne.nearer [
        | inl (same, less) ↦ elim ad.nearer [
          | inl (still, fewer) ↦ inl (ap phases still ∙ same, omega arith)
          | inr ended ↦ inr (omega (arith, ap phases ended, counts b1.sched))
        ]
        | inr past ↦ elim ad.nearer [
          | inl (still, fewer) ↦ inr (omega (arith, ap phases still))
          | inr ended ↦ inr (omega (arith, ap phases ended, counts b1.sched))
        ]
      ];
    }

    Stops-Nearer :
        {n : ℕ} {b b' : Barrier W}
        → 0 < parallel_threads
        → Awake b
        → b.parallel_threads ≡ parallel_threads
        → Stops n b b'
        → Nearer n b b'
    Stops-Nearer par aw same (no_stop b) = record {
      awake = aw;
      same_parallel = same;
      nearer = inl (refl, omega arith);
    }
    Stops-Nearer {b = b} par aw same (sync_stop {n} {b1 = b1} {b2 = b2} st draw t fair r e) =
        let ne = Stops-Nearer par aw same st in
        Advanced-Nearer n b b1 b2 ne (
          subst (λ m. Returns m (Advanced callback b1)) e
            (sync-Advanced callback draw fair b1 t ne.awake (rw ne.same_parallel par) r))
    Stops-Nearer {b = b} par aw same (leave_stop {n} {b1 = b1} {b2 = b2} st draw t fair r e) =
        let ne = Stops-Nearer par aw same st in
        Advanced-Nearer n b b1 b2 ne (
          subst (λ m. Returns m (Advanced callback b1)) e
            (leave-Advanced callback draw fair b1 t ne.awake (rw ne.same_parallel par) r))

    -- A phase ends: after more stops of running threads than threads run and places had no turn, in any
    -- order, the scheduler's callback has been called, for any callback whose calls can be counted.
    pub Stops-phase_ends :
        {n : ℕ} {b b' : Barrier W}
        → 0 < parallel_threads
        → Reachable b
        → Stops n b b'
        → b.running_threads + (length b.run_list - b.cur_thread_idx) < n
        → phases b.sched < phases b'.sched
    Stops-phase_ends par r st enough =
        let (aw, same) = Reachable-Awake par r in
        elim ((Stops-Nearer par aw same st).nearer) [
          | inl (still, less) ↦ absurd (omega arith)
          | inr past ↦ past
        ]
