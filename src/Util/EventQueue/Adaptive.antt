-- ===== src/Util/EventQueue/Adaptive.antt =====
-- `AdaptiveEvent` of src/event_queue.h: it fires in time, however the value that it watches grows.
use cache_sim.Sched.Scheduler.Calls.{start}
use cache_sim.Util.EventQueue.{new_adaptive, AdaptiveEvent, at_rate, adaptive_callback}
use cache_sim.Base.{
  leb, Bool-cases, ◌==◌, le→leb, Returns-else, Returns-assert, Returns-then, Returns, ℕ, ◌+◌, ◌-◌,
  ◌*◌, ◌/◌, ◌≤◌, ◌<◌, ◌≡◌, refl, ◌⊎◌, inl, inr, arith,
}
use native.Mathlib.Nat.{mul-div-le}

at_rate-covers : (rest max_rate : ℕ) → max_rate * at_rate rest max_rate ≤ rest + max_rate
at_rate-covers rest max_rate = elim (Bool-cases ((rest / max_rate) == 0)) [
  | inl y ↦ rw y (omega arith)
  | inr n ↦ rw n (omega (arith, mul-div-le rest max_rate))
]

at_rate-positive : (rest max_rate : ℕ) → 0 < at_rate rest max_rate
at_rate-positive rest max_rate = ground arith

-- When the event last looked, the value was `v`, not past the target. At the highest rate the value
-- passes the target by one phase's growth at most before the event looks again.
pub record Timely (e : AdaptiveEvent) (v : ℕ) : Type 0 where
  pub not_past : v ≤ e.target
  pub covers : v + e.max_rate * e.period ≤ e.target + e.max_rate
  pub some_phase : 0 < e.period
  pub rated : 0 < e.max_rate

again-Timely :
    (target max_rate v : ℕ)
    → v ≤ target
    → 0 < max_rate
    → Timely
        (record { period = at_rate (target - v) max_rate; target = target; max_rate = max_rate })
        v
again-Timely target max_rate v le rated = record {
  not_past = le;
  covers = omega (arith, at_rate-covers (target - v) max_rate, le);
  some_phase = at_rate-positive (target - v) max_rate;
  rated = rated;
}

pub new_adaptive-Timely :
    (start target max_rate : ℕ)
    → start ≤ target
    → 0 < max_rate
    → Returns (new_adaptive start target max_rate) (λ e. Timely e start)
unfolding new_adaptive
new_adaptive-Timely start target max_rate le rated =
    Returns-assert (leb start target) _ (λ e. Timely e start) (le→leb start target le)
      (again-Timely target max_rate start le rated)

module _ {W : Type 0} (get : W → ℕ) (fire : W → W) where
  -- The event fired, and is one-shot from now on; or the value is below the target, and the event looks
  -- again in time.
  pub record Looked (e : AdaptiveEvent) (w : W) (r : AdaptiveEvent × W) : Type 0 where
    pub same_target : (r.0.target ≡ e.target) × (r.0.max_rate ≡ e.max_rate)
    pub outcome :
        ((e.target ≤ get w) × (get w ≤ e.target + e.max_rate) × (r.1 ≡ fire w) × (r.0.period ≡ 0))
        ⊎ ((get w < e.target) × (r.1 ≡ w) × Timely r.0 (get w))

  -- The callback of an event that looks in time returns, when the value grew by no more than the highest
  -- rate in each phase since: the event fires at a value that passes the target by one phase's growth at
  -- most, or it looks again in time.
  pub adaptive_callback-Looked :
      (e : AdaptiveEvent) (v : ℕ) (w : W)
      → Timely e v
      → get w ≤ v + e.max_rate * e.period
      → Returns (adaptive_callback get fire e w) (Looked e w)
  unfolding adaptive_callback
  adaptive_callback-Looked e v w t slow = elim (Bool-cases (leb e.target (get w))) [
    | inl y ↦
        let there : e.target ≤ get w = ground (arith, y) in
        let near : get w ≤ e.target + e.max_rate = omega (arith, slow, t.covers) in
        Returns-then (leb e.target (get w)) _ _ (Looked e w) y (
          Returns-assert (leb (get w - e.target) e.max_rate) _ (Looked e w)
            (le→leb (get w - e.target) e.max_rate (omega (arith, near)))
            (record { same_target = (refl, refl); outcome = inl (there, near, refl, refl) }))
    | inr n ↦
        let below : get w < e.target = ground (arith, n) in
        Returns-else (leb e.target (get w)) _ _ (Looked e w) n (record {
          same_target = (refl, refl);
          outcome = inr (
            below,
            refl,
            again-Timely e.target e.max_rate (get w) (omega (arith, below)) t.rated,
          );
        })
  ]
