-- ===== src/Util/EventQueue.antt =====
-- `EventQueue` and `AdaptiveEvent` of src/event_queue.h. The multimap is a list of phases and events in
-- the order in which it is walked: an insertion goes behind the events of the same phase. An event is a
-- value with a period; `callback` gives the event and the world as they are after it.
pub mod Tick
pub mod Adaptive
mod Tests
use cache_sim.Sched.Scheduler.Phase.{callback}
use cache_sim.Sched.Scheduler.Calls.{start}
use cache_sim.Base.{
  leb, ◌==◌, ltb, if◌then◌else◌, done, assert, ◌>>=◌, failed, ◌>>◌, Outcome, length, ℕ, zero, suc,
  ◌+◌, ◌-◌, ◌/◌, ◌%◌, ◌^◌, true, false, Option, none, some, List, [], ◌∷◌,
}

-- `evMap.insert`
unfoldable pub insert_at {ℓ} : {E : Type ℓ} → ℕ → E → List (ℕ × E) → List (ℕ × E)
insert_at p e [] = (p, e) ∷ []
insert_at p e ((q, f) ∷ rest) =
    if ltb p q then (p, e) ∷ (q, f) ∷ rest else (q, f) ∷ insert_at p e rest

module _ {E W : Type 0} (period : E → ℕ) (callback : E → W → Outcome (E × W)) where
  -- An event with a period comes back, and a one-shot event is deleted.
  abbrev pub come_again : ℕ → E → List (ℕ × E) → List (ℕ × E)
  come_again cur e rest =
      if period e == 0 then rest else insert_at ((cur + period e) % 2 ^ 64) e rest

  -- The loop of `tick`. Each round takes an event of this phase away, so that their number is enough
  -- fuel.
  unfoldable pub tick_events : ℕ → ℕ → List (ℕ × E) → W → Outcome (List (ℕ × E) × W)
  tick_events zero cur xs w = failed
  tick_events (suc k) cur [] w = done ([], w)
  tick_events (suc k) cur ((p, e) ∷ rest) w = elim (leb p cur) [
    | true ↦
        assert (p == cur) >> (callback e w >>= λ r. tick_events k cur (come_again cur r.0 rest) r.1)
    | false ↦ done ((p, e) ∷ rest, w)
  ]

  unfoldable pub tick : ℕ → List (ℕ × E) → W → Outcome (List (ℕ × E) × W)
  tick cur xs w = tick_events (suc (length xs)) cur xs w

  -- `insert`, whose start delay is none when it is left out.
  abbrev pub event_phase : ℕ → E → Option ℕ → ℕ
  event_phase cur e none = (cur + period e) % 2 ^ 64
  event_phase cur e (some delay) = (cur + delay) % 2 ^ 64

  unfoldable pub insert_event : ℕ → E → Option ℕ → List (ℕ × E) → Outcome (List (ℕ × E))
  insert_event cur e start_delay xs =
      assert (leb cur (event_phase cur e start_delay))
      >> done (insert_at (event_phase cur e start_delay) e xs)

pub record AdaptiveEvent : Type 0 where
  pub period : ℕ
  pub target : ℕ
  pub max_rate : ℕ

-- The phases until the target at the highest rate, but one at least.
abbrev pub at_rate : ℕ → ℕ → ℕ
at_rate rest max_rate = if (rest / max_rate) == 0 then 1 else rest / max_rate

unfoldable pub new_adaptive : ℕ → ℕ → ℕ → Outcome AdaptiveEvent
new_adaptive start target max_rate =
    assert (leb start target)
    >> done (record {
      period = at_rate (target - start) max_rate;
      target = target;
      max_rate = max_rate;
    })

module _ {W : Type 0} (get : W → ℕ) (fire : W → W) where
  unfoldable pub adaptive_callback : AdaptiveEvent → W → Outcome (AdaptiveEvent × W)
  adaptive_callback e w =
      if leb e.target (get w)
      then (assert (leb (get w - e.target) e.max_rate) >> done (record e { period = 0 }, fire w))
      else done (record e { period = at_rate (e.target - get w) e.max_rate }, w)
