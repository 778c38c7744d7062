-- ===== src/Compressor/Tests.antt =====
-- The compressor on short lines, and on whole ones.
use cache_sim.Compressor.Perfect.{compare_perfect, compare_perfect-least}
use mathlib.Core.List.{reverse}
use cache_sim.Compressor.Store.{
  num_lines, c_to_l_orig, Store, c_to_l_orig-long_to_line, long_to_line,
}
use cache_sim.Compressor.Width.{count_line-least, AreWidths, sum}
use cache_sim.Compressor.Lines.{AreBytes, count_width, count_line, total_width, xxor, Line}
use cache_sim.Compressor.Pairs.{compare_line, HasRoom, Compared, compare_line-Compared}
use cache_sim.Base.{
  length-replicate, replicate, ℕ, ◌+◌, ◌*◌, ◌≤◌, ◌<◌, ◌≡◌, refl, false, Option, [], ◌∷◌, arith,
  Bool, true, inl, inr,
}

abbrev short : Line
short = 200 ∷ 0 ∷ 9 ∷ []

abbrev other : Line
other = 201 ∷ 1 ∷ 8 ∷ []

short-AreBytes : AreBytes short
short-AreBytes = (omega arith, (omega arith, (omega arith, tt)))

other-AreBytes : AreBytes other
other-AreBytes = (omega arith, (omega arith, (omega arith, tt)))

short-AreWidths : AreWidths short (8 ∷ 0 ∷ 4 ∷ [])
short-AreWidths = (
  (omega arith, inr (omega arith)),
  ((omega arith, inl refl), ((omega arith, inr (omega arith)), tt)),
)

-- 8, 0 and 4 bits make 2 bytes.
short_count : count_line short ≡ 2
unfolding count_line total_width count_width
short_count = refl

count_line-least_example :
    (sum (8 ∷ 0 ∷ 4 ∷ []) ≤ 8 * count_line short)
    × (8 * count_line short < sum (8 ∷ 0 ∷ 4 ∷ []) + 8)
    × (count_line short ≤ 3)
count_line-least_example = count_line-least short (8 ∷ 0 ∷ 4 ∷ []) short-AreBytes short-AreWidths

-- Byte 0 is 7, and the others are 0.
abbrev seven_line : Line
seven_line = 7 ∷ replicate 63 0

abbrev small_store : Store
small_store = record {
  data_array_orig = replicate 128 0;
  data_array = [];
  index_ref = [];
  sizes_orig = 0 ∷ 0 ∷ [];
  sizes_xor = [];
  occupied = [];
  initialized = [];
  uncompress_size = 0;
  data_array_perf = [];
  data_array_sub = [];
  index_ref_perf = [];
  occupied_perf = [];
  initialized_perf = [];
}

c_to_l_orig-long_to_line_example :
    c_to_l_orig (long_to_line small_store seven_line 1) 1 ≡ reverse seven_line
c_to_l_orig-long_to_line_example =
    c_to_l_orig-long_to_line small_store seven_line 1 1 refl (omega arith)

-- No line has come in yet.
abbrev empty_store : Store
empty_store = record small_store {
  index_ref = replicate num_lines 0;
  occupied = replicate num_lines false;
}

empty_store-HasRoom : HasRoom empty_store
empty_store-HasRoom = record {
  refs = length-replicate {A = ℕ} num_lines 0;
  occ = length-replicate {A = Bool} num_lines false;
}

compare_line-Compared_example :
    (o : Option ℕ) × Compared empty_store short 3 o (compare_line empty_store short 3)
compare_line-Compared_example =
    compare_line-Compared empty_store short 3 empty_store-HasRoom (omega arith)

-- Entry 1 is initialized for `compare_perfect`, and reads as zeroes.
abbrev one_free : Store
one_free = record small_store { initialized_perf = false ∷ true ∷ [] }

compare_perfect-least_example :
    (count_line (compare_perfect one_free short 3).1 ≤ count_line short)
    × (count_line (compare_perfect one_free short 3).1
        ≤ count_line (xxor (c_to_l_orig one_free 1) short))
compare_perfect-least_example = compare_perfect-least one_free short 3 1 (omega arith) refl
