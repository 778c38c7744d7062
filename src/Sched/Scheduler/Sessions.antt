-- ===== src/Sched/Scheduler/Sessions.antt =====
-- A scheduler over time: calls in any order that the states of the threads permit.
use cache_sim.Sched.Scheduler.Deadlines.{occur-Rested}
use cache_sim.Sched.Scheduler.Still.{awake}
use cache_sim.Sched.Scheduler.Ends.{Rested}
use cache_sim.Sched.Scheduler.Events.{Event, occur, Permitted, Inv, occur-Inv}
use cache_sim.Sched.Scheduler.Switches.{used_by-injective}
use cache_sim.Sched.Scheduler.Fresh.{fresh-Fits}
use cache_sim.Sched.Scheduler.Fits.{Busy}
use cache_sim.Sched.Barrier.Tally.{occurs}
use cache_sim.Sched.Barrier.Run.{Call}
use cache_sim.Base.{
  Returns, Returns-result, Outcome, done, ℕ, ◌^◌, ◌<◌, ◌≡◌, refl, sym, ap, subst, ◌∙◌, Bool, true,
  Option, arith, Returns-Ensures,
}
use cache_sim.Sched.Scheduler.{started, Scheduler, no_thread, holds, new_scheduler}

-- Threads that have just started, on a scheduler as the constructor leaves it, and what events lead to.
pub data Reachable (num_cores sched_quantum : ℕ) : Scheduler → Type 0 where
  begin :
      (known : ℕ → Bool) (masks : ℕ → ℕ → Bool)
      → Reachable num_cores sched_quantum (record (new_scheduler num_cores sched_quantum) {
        known = known;
        threads = λ g. record no_thread { state = started; mask = masks g };
      })
  next :
      {s : Scheduler} {r : Scheduler × Option Call}
      → Reachable num_cores sched_quantum s
      → (e : Event) → Permitted s e
      → occur s e ≡ done r
      → Reachable num_cores sched_quantum r.0

result-Inv :
    (m : Outcome (Scheduler × Option Call)) (r : Scheduler × Option Call)
    → m ≡ done r
    → Returns m (λ r. Inv r.0 × Rested r.0)
    → Inv r.0 × Rested r.0
result-Inv m r e i = subst (λ m. Returns m (λ r. Inv r.0 × Rested r.0)) e i

-- A permitted event keeps all that holds of a scheduler between two events.
event-Inv :
    (s : Scheduler) (e : Event)
    → Inv s × Rested s
    → Permitted s e
    → Returns (occur s e) (λ r. Inv r.0 × Rested r.0)
event-Inv s e (i, rest) may =
    Returns-Ensures (occur s e) (λ r. Inv r.0) (λ r. Rested r.0) (occur-Inv s e i rest may)
      (occur-Rested s e i.0 rest may)

module _ (num_cores sched_quantum : ℕ) (some_core : 0 < num_cores)
    (small : num_cores < 2 ^ 32) where
  begin-Inv :
      (known : ℕ → Bool) (masks : ℕ → ℕ → Bool)
      → Inv (record (new_scheduler num_cores sched_quantum) {
        known = known;
        threads = λ g. record no_thread { state = started; mask = masks g };
      })
  unfolding new_scheduler
  begin-Inv known masks = (
    fresh-Fits known (λ g. record no_thread { state = started; mask = masks g }) num_cores
        sched_quantum small (λ g. (refl, some_core)),
    record {
      waits = λ v u e. absurd (ground (arith, e));
      sole = λ v w u e e'. absurd (ground (arith, e));
    },
  )

  begin-Rested :
      (known : ℕ → Bool) (masks : ℕ → ℕ → Bool)
      → Rested (record (new_scheduler num_cores sched_quantum) {
        known = known;
        threads = λ g. record no_thread { state = started; mask = masks g };
      })
  unfolding new_scheduler
  begin-Rested known masks = record {
    ordered = tt;
    armed = λ g e. absurd (awake started refl e);
    in_step = refl;
  }

  Reachable-Inv : {s : Scheduler} → Reachable num_cores sched_quantum s → Inv s × Rested s
  Reachable-Inv (begin known masks) = (begin-Inv known masks, begin-Rested known masks)
  Reachable-Inv (next {s} {r} before e may gives) =
      result-Inv (occur s e) r gives (event-Inv s e (Reachable-Inv before) may)

  -- After any sequence of permitted events, on some core at least and fewer than 2 ^ 32, a permitted
  -- event trips no assertion, and leads to a scheduler that such events lead to.
  pub Reachable-occur :
      {s : Scheduler} (e : Event)
      → Reachable num_cores sched_quantum s
      → Permitted s e
      → Returns (occur s e) (λ r. Reachable num_cores sched_quantum r.0)
  Reachable-occur {s} e before may =
      Returns-result (occur s e) (λ r. Inv r.0 × Rested r.0)
        (λ r. Reachable num_cores sched_quantum r.0) (event-Inv s e (Reachable-Inv before) may)
        (λ r gives. next before e may gives)

  -- After any sequence of permitted events, on some core at least and fewer than 2 ^ 32, two threads that have a context, running or out, have
  -- different ones; and a thread that waits, on the run queue, may have no context but those of running
  -- threads.
  pub Reachable-exclusive :
      {s : Scheduler}
      → Reachable num_cores sched_quantum s
      → ((g h : ℕ)
          → holds (s.threads g).state ≡ true
          → holds (s.threads h).state ≡ true
          → (s.threads g).cid ≡ (s.threads h).cid
          → g ≡ h)
        × ((g c : ℕ)
            → 0 < occurs g s.run_queue
            → c < s.num_cores
            → (s.threads g).mask c ≡ true
            → Busy s.threads s.contexts c)
  Reachable-exclusive {s} before =
      let f = (Reachable-Inv before).0.0 in
      (
        (λ g h a b e.
            used_by-injective g h
              (sym (f.seats.held g a).1 ∙ ap s.contexts e ∙ (f.seats.held h b).1)),
        (λ g c o l m. f.served g c o l m refl),
      )
