-- ===== src/Repl/Nru.antt =====
-- `NRUReplPolicy` of src/repl_policies.h: two bits of age for each line.
use Prim.Native.Nat.{bit_or}
use cache_sim.Base.{
  leb, if◌then◌else◌, ltb, ◌==◌, ◌>>◌, Outcome, set, replicate, get_or, ℕ, ◌+◌, ◌-◌, ◌/◌, ◌%◌, ◌^◌,
  List, [], ◌∷◌, assert, done,
}

pub record Nru : Type 0 where
  pub array : List ℕ
  pub cand_array : List ℕ
  pub num_lines : ℕ
  pub young_lines : ℕ
  pub cand_val : ℕ
  pub cand_idx : ℕ

unfoldable pub new_nru : ℕ → ℕ → Nru
new_nru num_lines num_cands = record {
  array = replicate num_lines 0;
  cand_array = replicate num_cands 0;
  num_lines = num_lines;
  young_lines = 0;
  cand_val = 2 ^ 20;
  cand_idx = 0;
}

-- The loop that ages every line.
unfoldable pub shift_all : List ℕ → List ℕ
shift_all [] = []
shift_all (x ∷ xs) = x / 2 ∷ shift_all xs

-- `youngLines += 1 - (array[id] >> 1); array[id] |= 0x2`
abbrev pub touch : Nru → ℕ → Nru
touch r id = record r {
  young_lines = (r.young_lines + 1 + (2 ^ 32 - get_or r.array id 0 / 2)) % 2 ^ 32;
  array = set r.array id (bit_or (get_or r.array id 0) 2);
}

unfoldable pub update : Nru → ℕ → Nru
update r id =
    let touched = touch r id in
    if leb (r.num_lines / 2) touched.young_lines
    then record touched { array = shift_all touched.array; young_lines = 0 }
    else touched

unfoldable pub record_candidate : Nru → ℕ → Nru
record_candidate r id =
    let val = get_or r.array id 0 in
    if ltb val r.cand_val
    then record r { cand_val = val; cand_array = set r.cand_array 0 id; cand_idx = 1 }
    else if val == r.cand_val
    then record r {
      cand_array = set r.cand_array r.cand_idx id;
      cand_idx = (r.cand_idx + 1) % 2 ^ 32;
    }
    else r

unfoldable pub get_best_candidate : Nru → Outcome ℕ
get_best_candidate r = do
  assert (ltb 0 r.cand_idx)
  done (get_or r.cand_array (r.young_lines % r.cand_idx) 0)

unfoldable pub replaced : Nru → ℕ → Nru
replaced r id = record r { cand_val = 2 ^ 20; cand_idx = 0; array = set r.array id 0 }
