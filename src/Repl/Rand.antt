-- ===== src/Repl/Rand.antt =====
-- `RandReplPolicy` of src/repl_policies.h. The generator `rnd` is a parameter: `rand_int n s` is
-- `rnd.randInt(n)` from its state `s`, with the state afterwards.
use cache_sim.Base.{
  ◌==◌, done, assert, Outcome, ◌>>◌, set, replicate, get_or, ℕ, ◌+◌, ◌-◌, ◌%◌, ◌^◌, List,
}

pub record Rand (S : Type 0) : Type 0 where
  pub cand_array : List ℕ
  pub num_cands : ℕ
  pub rnd : S
  pub cand_idx : ℕ

module _ {S : Type 0} (rand_int : ℕ → S → ℕ × S) where
  unfoldable pub new_rand : ℕ → S → Rand S
  new_rand num_cands seed = record {
    cand_array = replicate num_cands 0;
    num_cands = num_cands;
    rnd = seed;
    cand_idx = 0;
  }

  unfoldable pub record_candidate : Rand S → ℕ → Rand S
  record_candidate r id = record r {
    cand_array = set r.cand_array r.cand_idx id;
    cand_idx = (r.cand_idx + 1) % 2 ^ 32;
  }

  unfoldable pub get_best_candidate : Rand S → Outcome (ℕ × Rand S)
  get_best_candidate r = do
    assert (r.cand_idx == r.num_cands)
    let (idx, rnd') = rand_int ((r.num_cands + (2 ^ 32 - 1)) % 2 ^ 32) r.rnd
    done (get_or r.cand_array idx 0, record r { rnd = rnd' })

  unfoldable pub replaced : Rand S → ℕ → Rand S
  replaced r id = record r { cand_idx = 0 }
