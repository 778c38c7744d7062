-- ===== src/Repl/Lru.antt =====
-- `LRUReplPolicy` of src/repl_policies.h. `SA` is its template parameter `sharersAware`.
pub mod Rank
pub mod History
use cache_sim.Base.{
  ℕ, ltb, if◌then◌else◌, set, get_or, replicate, ◌+◌, ◌-◌, ◌*◌, ◌%◌, ◌^◌, min, Bool, List, [], ◌∷◌,
}

-- `timestamp` counts updates, so it does not wrap in a `uint64_t`.
pub record Lru : Type 0 where
  pub timestamp : ℕ
  pub array : List ℕ

unfoldable pub new_lru : ℕ → Lru
new_lru num_lines = record { timestamp = 1; array = replicate num_lines 0 }

unfoldable pub update : Lru → ℕ → Lru
update r id = record { timestamp = r.timestamp + 1; array = set r.array id r.timestamp }

unfoldable pub replaced : Lru → ℕ → Lru
replaced r id = record r { array = set r.array id 0 }

-- The queries of the coherence controller that a policy makes.
pub record Lines : Type 0 where
  pub num_sharers : ℕ → ℕ
  pub is_valid : ℕ → Bool

-- `score`, a `uint64_t`.
unfoldable pub score : Bool → Lines → Lru → ℕ → ℕ
score sharers_aware lines r id =
    ((if sharers_aware then lines.num_sharers id else 0) * r.timestamp
      + get_or r.array id 0 * (if lines.is_valid id then 1 else 0))
    % 2 ^ 64

-- The loop of `rank`. `s` is a `uint32_t`, so each score is cut to 32 bits.
unfoldable pub rank_loop : (ℕ → ℕ) → List ℕ → ℕ → ℕ → ℕ
rank_loop sc [] best_cand best_score = best_cand
rank_loop sc (c ∷ cs) best_cand best_score =
    rank_loop sc cs (if ltb (sc c % 2 ^ 32) best_score then c else best_cand)
      (min (sc c % 2 ^ 32) best_score)

unfoldable pub rank : Bool → Lines → Lru → List ℕ → ℕ
rank sharers_aware lines r cands =
    rank_loop (score sharers_aware lines r) cands (2 ^ 32 - 1) (2 ^ 64 - 1)
