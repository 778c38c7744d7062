-- ===== src/Compressor/Counts.antt =====
-- The counters of src/compressor.cpp. They are `int`s, kept here modulo 2 ^ 32, as are the arguments,
-- which may stand for negative numbers. The quotients that the functions print are left out.
use cache_sim.Base.{ℕ, ◌+◌, ◌%◌, ◌^◌}

pub record Counts : Type 0 where
  pub orig_size : ℕ
  pub xor_size : ℕ
  pub xor_size_perf : ℕ
  pub orig_size_bdi : ℕ
  pub xor_size_bdi : ℕ
  pub xor_size_bdi_perf : ℕ
  pub flip_orig_size : ℕ
  pub flip_xor_size : ℕ
  pub flip_xor_size_perf : ℕ
  pub flip_orig_size_bdi : ℕ
  pub flip_xor_size_bdi : ℕ
  pub flip_xor_size_bdi_perf : ℕ

abbrev pub add_int : ℕ → ℕ → ℕ
add_int a b = (a + b) % 2 ^ 32

unfoldable pub calc_rate : Counts → ℕ → ℕ → ℕ → ℕ → Counts
calc_rate c alloc comp orig_flip flip = record c {
  orig_size_bdi = add_int c.orig_size_bdi alloc;
  xor_size_bdi = add_int c.xor_size_bdi comp;
  flip_orig_size_bdi = add_int c.flip_orig_size_bdi orig_flip;
  flip_xor_size_bdi = add_int c.flip_xor_size_bdi flip;
}

unfoldable pub calc_rate_perf : Counts → ℕ → ℕ → ℕ → ℕ → Counts
calc_rate_perf c alloc comp orig_flip flip = record c {
  xor_size_bdi_perf = add_int c.xor_size_bdi_perf comp;
  flip_xor_size_bdi_perf = add_int c.flip_xor_size_bdi_perf flip;
}

unfoldable pub calc_rate_raw : Counts → ℕ → ℕ → ℕ → ℕ → Counts
calc_rate_raw c alloc comp orig_flip flip = record c {
  orig_size = add_int c.orig_size alloc;
  xor_size = add_int c.xor_size comp;
  flip_orig_size = add_int c.flip_orig_size orig_flip;
  flip_xor_size = add_int c.flip_xor_size flip;
}

unfoldable pub calc_rate_perf_raw : Counts → ℕ → ℕ → ℕ → ℕ → Counts
calc_rate_perf_raw c alloc comp orig_flip flip = record c {
  xor_size_perf = add_int c.xor_size_perf comp;
  flip_xor_size_perf = add_int c.flip_xor_size_perf flip;
}
