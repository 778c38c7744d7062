-- ===== src/Repl/Tree.antt =====
-- `TreeLRUReplPolicy` of src/repl_policies.h: LRU time stamps, with the victim found by halving.
pub mod Halves
use Prim.Native.Nat.{bit_and}
use cache_sim.Compressor.Store.{num_lines}
use cache_sim.Repl.Lru.{Lru, new_lru}
use cache_sim.Base.{
  ◌==◌, ltb, if◌then◌else◌, ◌>>◌, ◌>>=◌, Outcome, get_or, set, replicate, ℕ, zero, suc, ◌+◌, ◌-◌,
  ◌/◌, ◌%◌, ◌^◌, max, Option, none, some, List, assert, done, failed,
}

-- `lru` is the base class.
pub record Tree : Type 0 where
  pub lru : Lru
  pub cand_array : List ℕ
  pub num_cands : ℕ
  pub cand_idx : ℕ

-- The constructor panics unless the number of candidates is a power of two, or 0.
unfoldable pub new_tree : ℕ → ℕ → Outcome Tree
new_tree num_lines num_cands = do
  assert (bit_and num_cands ((num_cands + (2 ^ 32 - 1)) % 2 ^ 32) == 0)
  done (record {
    lru = new_lru num_lines;
    cand_array = replicate num_cands 0;
    num_cands = num_cands;
    cand_idx = 0;
  })

unfoldable pub record_candidate : Tree → ℕ → Tree
record_candidate t id = record t {
  cand_array = set t.cand_array t.cand_idx id;
  cand_idx = (t.cand_idx + 1) % 2 ^ 32;
}

-- `array[candArray[i]]`
abbrev pub stamp : Tree → ℕ → ℕ
stamp t i = get_or t.lru.array (get_or t.cand_array i 0) 0

-- The inner loops: the newest stamp of the candidates `i, …, i + n - 1`, or `newest`.
unfoldable pub newest_loop : Tree → ℕ → ℕ → ℕ → ℕ
newest_loop t zero i newest = newest
newest_loop t (suc n) i newest = newest_loop t n (suc i) (max newest (stamp t i))

-- The `while` loop, with `fuel` rounds left; it is given `num_cands` rounds.
unfoldable pub halve : Tree → ℕ → ℕ → ℕ → Option ℕ
halve t zero start end = if ltb 1 (end - start) then none else some start
halve t (suc fuel) start end =
    let pivot = start + (end - start) / 2 in
    let upper = halve t fuel pivot end in
    let lower = halve t fuel start pivot in
    if ltb 1 (end - start)
    then (if ltb (newest_loop t (end - pivot) pivot 0) (newest_loop t (pivot - start) start 0)
        then upper
        else lower)
    else some start

-- The candidate at the index that the loop ended with; it ends, by `halve-EndsIn`.
abbrev pub cand_at : Tree → Option ℕ → Outcome ℕ
cand_at t none = failed
cand_at t (some i) = done (get_or t.cand_array i 0)

unfoldable pub get_best_candidate : Tree → Outcome ℕ
get_best_candidate t = do
  assert (t.cand_idx == t.num_cands)
  cand_at t (halve t t.num_cands 0 t.num_cands)

unfoldable pub replaced : Tree → ℕ → Tree
replaced t id = record t { cand_idx = 0; lru = record t.lru { array = set t.lru.array id 0 } }
