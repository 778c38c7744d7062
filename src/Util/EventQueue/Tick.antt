-- ===== src/Util/EventQueue/Tick.antt =====
-- A tick of the event queue of src/event_queue.h runs the events of its phase, once each and in order.
use cache_sim.Util.EventQueue.{come_again, insert_at}
use cache_sim.Base.{◌>>=◌, done, Outcome, ℕ, ◌≤◌, List, [], ◌∷◌}

-- All events are at `n` or later.
abbrev pub From {ℓ} : {E : Type ℓ} → ℕ → List (ℕ × E) → Type 0
From n [] = Unit {0}
From n ((p, e) ∷ xs) = (n ≤ p) × From n xs

-- The events of one phase.
abbrev pub all_at {ℓ} : {E : Type ℓ} → ℕ → List E → List (ℕ × E)
all_at p [] = []
all_at p (e ∷ es) = (p, e) ∷ all_at p es

-- The insertions of events at one phase, the first of the list first.
abbrev pub insert_all {ℓ} : {E : Type ℓ} → ℕ → List E → List (ℕ × E) → List (ℕ × E)
insert_all p [] xs = xs
insert_all p (e ∷ es) xs = insert_all p es (insert_at p e xs)

module _ {E W : Type 0} (period : E → ℕ) (callback : E → W → Outcome (E × W)) where
  -- The events of a phase one after the other; those with a period join the later ones.
  abbrev pub fire_all : ℕ → List E → List (ℕ × E) → W → Outcome (List (ℕ × E) × W)
  fire_all cur [] later w = done (later, w)
  fire_all cur (e ∷ es) later w =
      callback e w >>= λ r. fire_all cur es (come_again period callback cur r.0 later) r.1
