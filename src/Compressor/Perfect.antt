-- ===== src/Compressor/Perfect.antt =====
-- `compare_perfect`: the smallest xor of a line with any free line, and the rates over all lines.
use cache_sim.Compressor.Store.{c_to_l_orig, Store, num_lines, write_bytes}
use cache_sim.Compressor.Lines.{xxor, count_line, Line}
use cache_sim.Base.{
  Bool-cases, if◌then◌else◌, ◌==◌, ltb, get_or, set, ℕ, zero, suc, ◌+◌, ◌*◌, ◌≤◌, ◌<◌, ◌≡◌, subst,
  inl, inr, Bool, true, false, not, ◌&&◌, arith, ℕ_discrete,
}

-- An entry that the loop looks at: initialized, free, and not the line's own.
abbrev pub is_free : Store → ℕ → ℕ → Bool
is_free st tag index =
    get_or st.initialized_perf index false
    && not (get_or st.occupied_perf index false)
    && not (index == tag)

abbrev pub is_better : Store → Line → ℕ → ℕ → Line → Bool
is_better st line tag index min_line =
    is_free st tag index
    && ltb (count_line (xxor (c_to_l_orig st index) line)) (count_line min_line)

-- One round, on `ret` and `min`.
unfoldable pub better_of : Store → Line → ℕ → ℕ → ℕ × Line → ℕ × Line
better_of st line tag index best =
    if is_better st line tag index best.1 then (index, xxor (c_to_l_orig st index) line) else best

-- The `while` loop with `n` rounds left.
unfoldable pub perfect_loop : Store → Line → ℕ → ℕ → ℕ → ℕ × Line → ℕ × Line
perfect_loop st line tag zero index best = best
perfect_loop st line tag (suc n) index best =
    perfect_loop st line tag n (suc index) (better_of st line tag index best)

-- What follows the loop.
unfoldable pub link_perfect : Store → ℕ → ℕ → Store × ℕ
link_perfect st tag ret =
    if not (get_or st.initialized_perf ret false)
    then (
      record st {
        uncompress_size = st.uncompress_size + 256;
        initialized_perf = set st.initialized_perf tag true;
      },
      tag,
    )
    else (
      record st {
        index_ref_perf = set (set st.index_ref_perf ret tag) tag ret;
        occupied_perf = set (set st.occupied_perf ret true) tag true;
      },
      ret,
    )

unfoldable pub compare_perfect : Store → Line → ℕ → Store × Line
compare_perfect st line tag =
    let best = perfect_loop st line tag num_lines 0 (tag, line) in
    let (st', ret) = link_perfect st tag best.0 in
    (record st' { data_array_perf = write_bytes st'.data_array_perf (ret * 64) best.1 }, best.1)

better_of-le :
    (st : Store) (line : Line) (tag index : ℕ) (best : ℕ × Line)
    → count_line (better_of st line tag index best).1 ≤ count_line best.1
unfolding better_of
better_of-le st line tag index best = elim (Bool-cases (is_better st line tag index best.1)) [
  | inl better ↦ rw better (ground (arith, better))
  | inr worse ↦ rw worse (omega arith)
]

better_of-xxor :
    (st : Store) (line : Line) (tag index : ℕ) (best : ℕ × Line)
    → is_free st tag index ≡ true
    → count_line (better_of st line tag index best).1
      ≤ count_line (xxor (c_to_l_orig st index) line)
unfolding better_of
better_of-xxor st line tag index best free =
    elim (Bool-cases (is_better st line tag index best.1)) [
      | inl better ↦ rw better (omega arith)
      | inr worse ↦ rw worse (ground (arith, worse, free))
    ]

perfect_loop-le :
    (st : Store) (line : Line) (tag n index : ℕ) (best : ℕ × Line)
    → count_line (perfect_loop st line tag n index best).1 ≤ count_line best.1
unfolding perfect_loop
perfect_loop-le st line tag zero index best = omega arith
perfect_loop-le st line tag (suc n) index best = omega (
  arith,
  perfect_loop-le st line tag n (suc index) (better_of st line tag index best),
  better_of-le st line tag index best,
)

perfect_loop-xxor :
    (st : Store) (line : Line) (tag n index k : ℕ) (best : ℕ × Line)
    → index ≤ k
    → k < index + n
    → is_free st tag k ≡ true
    → count_line (perfect_loop st line tag n index best).1
      ≤ count_line (xxor (c_to_l_orig st k) line)
unfolding perfect_loop
perfect_loop-xxor st line tag zero index k best lo hi free = absurd (omega arith)
perfect_loop-xxor st line tag (suc n) index k best lo hi free = elim (ℕ_discrete k index) [
  | no later ↦ perfect_loop-xxor st line tag n (suc index) k _ (omega arith) (omega arith) free
  | yes here ↦ rw here (
      omega (
        arith,
        perfect_loop-le st line tag n (suc index) (better_of st line tag index best),
        better_of-xxor st line tag index best (subst (λ i. is_free st tag i ≡ true) here free),
      ))
]

-- `compare_perfect` hands back a line that is no larger than the one that came in, and no larger than
-- its xor with any line of the cache that is initialized, free, and not in its own place.
pub compare_perfect-least :
    (st : Store) (line : Line) (tag k : ℕ)
    → k < num_lines
    → is_free st tag k ≡ true
    → (count_line (compare_perfect st line tag).1 ≤ count_line line)
      × (count_line (compare_perfect st line tag).1 ≤ count_line (xxor (c_to_l_orig st k) line))
unfolding compare_perfect
compare_perfect-least st line tag k h free = (
  perfect_loop-le st line tag num_lines 0 (tag, line),
  perfect_loop-xxor st line tag num_lines 0 k (tag, line) (omega arith) (omega arith) free,
)
