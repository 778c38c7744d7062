-- ===== src/Sched/Scheduler/Seating.antt =====
-- A context on its way between threads and the free list.
use cache_sim.Sched.Scheduler.Lists.{erase_self, append_self, append_other, erase_other}
use cache_sim.Sched.Scheduler.Fits.{FitsWith, Fits}
use cache_sim.Sched.Barrier.Tally.{occurs}
use cache_sim.Sched.Scheduler.{erase, Scheduler}
use cache_sim.Base.{
  ℕ, ◌<◌, ◌≡◌, refl, sym, ap, ◌≢◌, false, List, [], ◌∷◌, ◌++◌, arith, ℕ_discrete, subst, true,
}

module _ (limbo : List ℕ) (s : Scheduler) where
  -- A context that is taken off the free list.
  pub take-FitsWith :
      (c : ℕ)
      → limbo ≡ []
      → FitsWith limbo s
      → 0 < occurs c s.free_list
      → FitsWith (c ∷ []) (record s { free_list = erase c s.free_list })
  take-FitsWith c none_out f here = record {
    queues = f.queues;
    seats = record {
      seat = f.seats.seat;
      held = f.seats.held;
      vacant = λ d. elim (ℕ_discrete d c) [
        | yes e ↦ rw e (
            ground (arith, ap (occurs c) none_out, f.seats.vacant c, erase_self c s.free_list here))
        | no ne ↦
            let differs : c ≢ d = λ e. ne (sym e) in
            ground (
              arith,
              differs,
              ap (occurs d) none_out,
              f.seats.vacant d,
              erase_other c d s.free_list ne,
            )
      ];
      counted = f.seats.counted;
    };
    served = λ u d o l m z. f.served u d o l m (rw none_out refl);
    in_range = f.in_range;
    small = f.small;
  }

  -- A context in limbo that goes on the free list: no thread that waits may have it.
  pub give-FitsWith :
      (c : ℕ)
      → limbo ≡ c ∷ []
      → FitsWith limbo s
      → ((u : ℕ) → 0 < occurs u s.run_queue → (s.threads u).mask c ≡ false)
      → Fits (record s { free_list = s.free_list ++ (c ∷ []) })
  give-FitsWith c only f unwanted = record {
    queues = f.queues;
    seats = record {
      seat = f.seats.seat;
      held = f.seats.held;
      vacant = λ d. elim (ℕ_discrete d c) [
        | yes e ↦
            rw e (ground (arith, ap (occurs c) only, f.seats.vacant c, append_self c s.free_list))
        | no ne ↦
            let differs : c ≢ d = λ e. ne (sym e) in
            ground (
              arith,
              differs,
              ap (occurs d) only,
              f.seats.vacant d,
              append_other c d s.free_list ne,
            )
      ];
      counted = f.seats.counted;
    };
    served = λ u d o l m z. elim (ℕ_discrete d c) [
      | yes e ↦
          let mine : (s.threads u).mask c ≡ true = subst (λ k. (s.threads u).mask k ≡ true) e m in
          absurd (ground (arith, mine, unwanted u o))
      | no ne ↦
          let differs : c ≢ d = λ e. ne (sym e) in
          f.served u d o l m (rw only (ground (arith, differs)))
    ];
    in_range = f.in_range;
    small = f.small;
  }
