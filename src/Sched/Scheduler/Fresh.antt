-- ===== src/Sched/Scheduler/Fresh.antt =====
-- A scheduler on which no thread has a context yet: `Scheduler` of src/scheduler.h as the constructor
-- leaves it.
use cache_sim.Sched.Scheduler.Lists.{occurs-range_from}
use cache_sim.Sched.Scheduler.Fits.{Fits}
use cache_sim.Sched.Scheduler.Moves.{rests}
use cache_sim.Sched.Barrier.Tally.{count}
use cache_sim.Sched.Scheduler.{
  may_run, new_scheduler, idle_context, ThreadInfo, range_from, is_used,
}
use cache_sim.Base.{ℕ, zero, suc, ◌+◌, ◌^◌, ◌<◌, ◌≡◌, refl, sym, inl, Bool, true, arith}

range_from-used : (i n : ℕ) → count (λ c. is_used (idle_context).state) (range_from i n) ≡ 0
range_from-used i zero = refl
range_from-used i (suc n) = omega (arith, range_from-used (i + 1) n)

-- Threads that may run, on a scheduler as the constructor leaves it.
pub fresh-Fits :
    (known : ℕ → Bool) (threads : ℕ → ThreadInfo) (num_cores sched_quantum : ℕ)
    → num_cores < 2 ^ 32
    → ((g : ℕ) → (may_run (threads g).state ≡ true) × ((threads g).cid < num_cores))
    → Fits (record (new_scheduler num_cores sched_quantum) { known = known; threads = threads })
unfolding new_scheduler
fresh-Fits known threads n q small new =
    let at_rest = λ (g : ℕ). rests (threads g).state (new g).0 in
    record {
      queues = record {
        runs = λ g. omega arith;
        outs = λ g. ground (arith, at_rest g);
        sleeps = λ g. ground (arith, at_rest g);
        armed = λ g o. absurd (omega (arith, o));
      };
      seats = record {
        seat = λ c. inl refl;
        held = λ g h. absurd (ground (arith, h, at_rest g));
        vacant = λ c. ground (arith, occurs-range_from c 0 n);
        counted = sym (range_from-used 0 n);
      };
      served = λ g c o. absurd (omega (arith, o));
      in_range = λ g. (new g).1;
      small = small;
    }
