-- ===== src/Repl/Tests.antt =====
-- A policy over four lines, after a short history.
use cache_sim.Repl.Tree.Halves.{get_best_candidate-IsCand, IsCand}
use cache_sim.Repl.Tree.{get_best_candidate, Tree}
use cache_sim.Repl.Lru.Rank.{Least, rank-Least, Among}
use cache_sim.Repl.Lru.History.{
  run, evicted, used, rank_evicts-Oldest, Oldest, Event, uses, InRange,
}
use cache_sim.Repl.Lru.{rank, update, replaced, new_lru, rank_loop, Lines, score}
use cache_sim.Base.{◌^◌, ◌<◌, ◌≡◌, refl, true, false, List, [], ◌∷◌, arith, Returns}

-- Newest first: line 2 was used twice, lines 0 and 1 once, and line 3 not since it came in.
abbrev history : List Event
history = used 2 ∷ used 0 ∷ used 1 ∷ used 2 ∷ evicted 3 ∷ []

abbrev all_valid : Lines
all_valid = record { num_sharers = λ j. 0; is_valid = λ j. true }

history_victim : rank false all_valid (run 4 history) (0 ∷ 1 ∷ 2 ∷ []) ≡ 1
unfolding rank rank_loop run score update replaced new_lru
history_victim = refl

history-InRange : InRange 4 history
history-InRange = (omega arith, (omega arith, (omega arith, (omega arith, (omega arith, tt)))))

few_uses : uses history < 2 ^ 32
unfolding uses
few_uses = omega arith

rank-Least_example :
    Among (rank false all_valid (run 4 history) (0 ∷ 1 ∷ [])) (0 ∷ 1 ∷ [])
    × Least
        (score false all_valid (run 4 history))
        (rank false all_valid (run 4 history) (0 ∷ 1 ∷ []))
        (0 ∷ 1 ∷ [])
rank-Least_example = rank-Least false all_valid (run 4 history) 0 (1 ∷ [])

rank_evicts-Oldest_example :
    Among (rank false all_valid (run 4 history) (0 ∷ 1 ∷ [])) (0 ∷ 1 ∷ [])
    × Oldest history (rank false all_valid (run 4 history) (0 ∷ 1 ∷ [])) (0 ∷ 1 ∷ [])
rank_evicts-Oldest_example =
    rank_evicts-Oldest 4 history all_valid 0 (1 ∷ []) history-InRange few_uses (refl, (refl, tt))

-- Lines 4 to 7 were used in the order 5, 4, 7, 6.
abbrev tree : Tree
tree = record {
  lru = record { timestamp = 5; array = 0 ∷ 0 ∷ 0 ∷ 0 ∷ 2 ∷ 1 ∷ 4 ∷ 3 ∷ [] };
  cand_array = 4 ∷ 5 ∷ 6 ∷ 7 ∷ [];
  num_cands = 4;
  cand_idx = 4;
}

get_best_candidate_example : Returns (get_best_candidate tree) (IsCand tree)
get_best_candidate_example = get_best_candidate-IsCand tree refl (omega arith)
