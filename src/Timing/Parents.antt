-- ===== src/Timing/Parents.antt =====
-- An event waits for all its parents, and runs after the last of them.
use cache_sim.Timing.Run.{parent_done}
use cache_sim.Base.{
  done, ◌>>=◌, Returns, Returns->>=, Outcome, length, ℕ, suc, ◌+◌, ◌%◌, ◌^◌, max, ◌≡◌, refl, Option,
  none, some, List, [], ◌∷◌, arith, ◌==◌, decrement, Returns-then, Returns-assert, Returns-else, ap,
  not,
}
use cache_sim.Timing.{ev_queued, ev_none, TimingEvent, is_none}

-- The cycles for which the event is handed to the queue.
abbrev collect : Option ℕ → List ℕ → List ℕ
collect none cs = cs
collect (some c) cs = c ∷ cs

-- The parents of an event that are done, one after the other.
abbrev pub tell_all : TimingEvent → List ℕ → Outcome (TimingEvent × List ℕ)
tell_all ev [] = done (ev, [])
tell_all ev (c ∷ cs) =
    parent_done ev c >>= λ r. tell_all r.0 cs >>= λ t. done (t.0, collect r.1 t.1)

abbrev pub latest : ℕ → List ℕ → ℕ
latest c [] = c
latest c (d ∷ ds) = latest (max c d) ds

-- The event is queued once, for the latest cycle and its delay.
pub record QueuedOnce (ev : TimingEvent) (cs : List ℕ) (r : TimingEvent × List ℕ) : Type 0 where
  pub state : r.0.state ≡ ev_queued
  pub no_parents : r.0.num_parents ≡ 0
  pub cycle : r.0.cycle ≡ latest ev.cycle cs
  pub queued : r.1 ≡ ((latest ev.cycle cs + ev.pre_delay) % 2 ^ 64) ∷ []

-- A parent that is not the last.
parent_done-more :
    (ev : TimingEvent) (c n : ℕ)
    → ev.num_parents ≡ suc (suc n)
    → Returns
        (parent_done ev c)
        (λ r. r ≡ (record ev { cycle = max ev.cycle c; num_parents = suc n }, none))
unfolding parent_done
parent_done-more ev c n e = Returns-assert (not (ev.num_parents == 0)) _ _ (rw e (ground arith)) (
    Returns-else (decrement ev.num_parents == 0) _ _ _ (rw e (ground arith))
      (ap (λ k. (record ev { cycle = max ev.cycle c; num_parents = k }, none)) (ap decrement e)))

parent_done-last :
    (ev : TimingEvent) (c : ℕ)
    → ev.num_parents ≡ 1
    → ev.state ≡ ev_none
    → Returns (parent_done ev c) (λ r. r ≡ (
      record ev { cycle = max ev.cycle c; num_parents = 0; state = ev_queued },
      some ((max ev.cycle c + ev.pre_delay) % 2 ^ 64),
    ))
unfolding parent_done
parent_done-last ev c e st = Returns-assert (not (ev.num_parents == 0)) _ _ (rw e (ground arith)) (
    Returns-then (decrement ev.num_parents == 0) _ _ _ (rw e (ground arith)) (
      Returns-assert (is_none ev.state) _ _ (rw st refl) (
        ap
          (λ k. (
            record ev { cycle = max ev.cycle c; num_parents = k; state = ev_queued },
            some ((max ev.cycle c + ev.pre_delay) % 2 ^ 64),
          ))
          (ap decrement e))))

-- An event that has as many parents as are told done is queued exactly once, by the last of them,
-- for its own delay after the latest of their cycles, in whichever order they come; no assertion fails.
pub tell_all-QueuedOnce :
    (ev : TimingEvent) (c : ℕ) (cs : List ℕ)
    → ev.state ≡ ev_none
    → ev.num_parents ≡ suc (length cs)
    → Returns (tell_all ev (c ∷ cs)) (QueuedOnce ev (c ∷ cs))
tell_all-QueuedOnce ev c [] st e =
    Returns->>= (parent_done ev c) _ _ (QueuedOnce ev (c ∷ [])) (parent_done-last ev c e st)
      λ r same. rw same (record { state = refl; no_parents = refl; cycle = refl; queued = refl })
tell_all-QueuedOnce ev c (d ∷ ds) st e =
    let heard = record ev { cycle = max ev.cycle c; num_parents = suc (length ds) } in
    Returns->>= (parent_done ev c) _ _ (QueuedOnce ev (c ∷ d ∷ ds))
      (parent_done-more ev c (length ds) e)
      λ r same. rw same (
        Returns->>= (tell_all heard (d ∷ ds)) _ (QueuedOnce heard (d ∷ ds))
          (QueuedOnce ev (c ∷ d ∷ ds)) (tell_all-QueuedOnce heard d ds st refl)
          λ t q. record {
            state = q.state;
            no_parents = q.no_parents;
            cycle = q.cycle;
            queued = q.queued;
          })
