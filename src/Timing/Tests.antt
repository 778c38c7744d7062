-- ===== src/Timing/Tests.antt =====
-- Witnesses for the modules of Timing.
use cache_sim.Timing.Life.{born, Life, Life-Waits, child_added}
use cache_sim.Timing.Parents.{tell_all-QueuedOnce, tell_all, QueuedOnce}
use cache_sim.Base.{Returns, ◌+◌, ◌≡◌, refl, [], ◌∷◌, arith, none}
use cache_sim.Timing.{ev_none, delay_event, TimingEvent, new_event}

-- An event with a delay of 3 and two parents.
abbrev two_parents : TimingEvent
two_parents = record (delay_event 3) { num_parents = 2 }

tell_all-QueuedOnce_example :
    Returns (tell_all two_parents (20 ∷ 12 ∷ [])) (QueuedOnce two_parents (20 ∷ 12 ∷ []))
unfolding delay_event
tell_all-QueuedOnce_example = tell_all-QueuedOnce two_parents 20 (12 ∷ []) refl refl

abbrev one_parent : TimingEvent
one_parent = record (new_event 3 0 none) { num_parents = 0 + 1 }

one_parent-Life : Life one_parent
one_parent-Life = child_added (born 3 0 none) refl

Life-Waits_example : one_parent.state ≡ ev_none
Life-Waits_example = Life-Waits one_parent-Life (omega arith)
