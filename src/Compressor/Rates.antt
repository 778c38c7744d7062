-- ===== src/Compressor/Rates.antt =====
-- The sums of `best_compression_rate` and `best_possible_rate`, and `countFlip`.
use cache_sim.Compressor.Store.{Store, c_to_l_perf, c_to_l_orig, num_lines}
use cache_sim.Compressor.Lines.{count_line, Line, xxor}
use cache_sim.Base.{
  if◌then◌else◌, ◌==◌, ltb, get_or, ℕ, zero, suc, ◌+◌, ◌/◌, ◌%◌, false, not, ◌&&◌, [], ◌∷◌,
}

-- The inner loop of `best_compression_rate`: the smallest xor of the line with another entry.
unfoldable pub best_loop : Store → Line → ℕ → ℕ → ℕ → ℕ → ℕ
best_loop st line i zero j best = best
best_loop st line i (suc n) j best =
    let len = count_line (xxor (c_to_l_orig st j) line) in
    best_loop st line i n (suc j) (if not (i == j) && ltb len best then len else best)

-- The outer loop: `ret` and `orig`. The result of `best_compression_rate` is their quotient.
unfoldable pub best_totals : Store → ℕ → ℕ → ℕ × ℕ → ℕ × ℕ
best_totals st zero i sums = sums
best_totals st (suc n) i sums =
    let line = c_to_l_orig st i in
    best_totals st n (suc i) (
      if get_or st.initialized i false
      then (sums.0 + best_loop st line i num_lines 0 (count_line line), sums.1 + count_line line)
      else sums)

-- The loop of `best_possible_rate`, whose result is the quotient of the sums.
unfoldable pub possible_totals : Store → ℕ → ℕ → ℕ × ℕ → ℕ × ℕ
possible_totals st zero i sums = sums
possible_totals st (suc n) i sums = possible_totals st n (suc i) (
    if get_or st.initialized i false
    then (sums.0 + count_line (c_to_l_perf st i), sums.1 + count_line (c_to_l_orig st i))
    else sums)

-- `ret`, `last` and the bytes in `countFlip`.
pub record Flips : Type 0 where
  pub flips : ℕ
  pub last : ℕ
  pub bytes : Line

-- The inner loop over the first `n` bytes: each gives its lowest bit and is shifted.
unfoldable pub flip_bytes : ℕ → ℕ → ℕ → Line → Flips
flip_bytes zero flips last bytes = record { flips = flips; last = last; bytes = bytes }
flip_bytes (suc n) flips last [] = record { flips = flips; last = last; bytes = [] }
flip_bytes (suc n) flips last (b ∷ bs) =
    let rest = flip_bytes n (if last == b % 2 then flips else flips + 1) (b % 2) bs in
    record rest { bytes = b / 2 ∷ rest.bytes }

-- The outer loop. The inner one hides its counter, so every round goes over the first 31 bytes.
unfoldable pub flip_rounds : ℕ → Flips → Flips
flip_rounds zero f = f
flip_rounds (suc n) f = flip_rounds n (flip_bytes 31 f.flips f.last f.bytes)

unfoldable pub count_flip : Line → ℕ
count_flip line =
    (flip_rounds 64 (record { flips = 0; last = get_or line 0 0 % 2; bytes = line })).flips
