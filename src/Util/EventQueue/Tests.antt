-- ===== src/Util/EventQueue/Tests.antt =====
-- Tests and witnesses for the event queue: a counter that adaptive events watch.
use cache_sim.Util.EventQueue.Adaptive.{adaptive_callback-Looked, Looked}
use cache_sim.Util.EventQueue.Tick.{all_at}
use cache_sim.Util.EventQueue.{tick_events, insert_at, adaptive_callback, tick, AdaptiveEvent}
use cache_sim.Base.{Returns, Outcome, done, ℕ, ◌+◌, ◌≡◌, refl, [], ◌∷◌, ◌++◌, arith}

-- Every third phase the counter grows by the event's number.
abbrev every_third : ℕ → ℕ
every_third e = 3

abbrev bump : ℕ → ℕ → Outcome (ℕ × ℕ)
bump e w = done (e, w + e)

both_fire :
    tick every_third bump 6 (all_at 6 (1 ∷ 2 ∷ []) ++ ((8, 5) ∷ [])) 10
    ≡ done ((8, 5) ∷ (9, 1) ∷ (9, 2) ∷ [], 13)
unfolding tick tick_events insert_at
both_fire = refl

abbrev watcher : AdaptiveEvent
watcher = record { period = 10; target = 100; max_rate = 10 }

adaptive_callback-Looked_example :
    Returns
      (adaptive_callback (λ w. w) (λ w. w + 1000) watcher 97)
      (Looked (λ w. w) (λ w. w + 1000) watcher 97)
adaptive_callback-Looked_example =
    adaptive_callback-Looked (λ w. w) (λ w. w + 1000) watcher 0 97
      (record {
        not_past = omega arith;
        covers = omega arith;
        some_phase = omega arith;
        rated = omega arith;
      })
      (omega arith)
