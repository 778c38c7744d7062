-- ===== src/Compressor/Store.antt =====
-- The arrays of src/compressor_xor.cpp, and the functions that read and write a line in them.
use cache_sim.Base.{
  get_or, get_or-set_ne, set, get_or-set_self, length-set, length, ℕ, zero, suc, ◌+◌, ◌*◌, ◌≤◌, ◌<◌,
  ◌≡◌, refl, sym, ap, subst, ◌∙◌, Bool, List, [], ◌∷◌, ◌++◌, arith, dec_lt, ap₂, ◌==◌,
  if◌then◌else◌, ==-ne, ℕ_discrete, ==_iff,
}
use mathlib.Core.List.{reverse, reverse-cons}
use native.Mathlib.Nat.{add-zero}
use cache_sim.Compressor.Lines.{Line, count_line}

-- `numLines`.
abbrev pub num_lines : ℕ
num_lines = 32768

-- `initialized[i][0]`, `occupied[i][0]`, `sizes[i][0]` and `sizes[i][1]`; the fields that end in
-- `_perf` are column 2. The other columns are not in use here.
pub record Store : Type 0 where
  pub data_array_orig : List ℕ
  pub data_array : List ℕ
  pub index_ref : List ℕ
  pub sizes_orig : List ℕ
  pub sizes_xor : List ℕ
  pub occupied : List Bool
  pub initialized : List Bool
  pub uncompress_size : ℕ
  pub data_array_perf : List ℕ
  pub data_array_sub : List ℕ
  pub index_ref_perf : List ℕ
  pub occupied_perf : List Bool
  pub initialized_perf : List Bool

-- The loop that copies the bytes of a line to `arr[base]`, `arr[base + 1]`, …
unfoldable pub write_bytes : List ℕ → ℕ → Line → List ℕ
write_bytes arr base [] = arr
write_bytes arr base (b ∷ bs) = write_bytes (set arr base b) (suc base) bs

-- `f (n - 1)`, …, `f 0`.
unfoldable pub count_down : (ℕ → ℕ) → ℕ → Line
count_down f zero = []
count_down f (suc n) = f n ∷ count_down f n

-- The body of `cTol_orig`, `cTol`, `cTol_perf` and `cTol_sub`: byte 63 of the entry comes first.
unfoldable pub c_to_l : List ℕ → ℕ → Line
c_to_l arr index = count_down (λ i. get_or arr (index * 64 + i) 0) 64

abbrev pub c_to_l_orig : Store → ℕ → Line
c_to_l_orig st index = c_to_l st.data_array_orig index

abbrev pub c_to_l_xor : Store → ℕ → Line
c_to_l_xor st index = c_to_l st.data_array index

abbrev pub c_to_l_perf : Store → ℕ → Line
c_to_l_perf st index = c_to_l st.data_array_perf index

abbrev pub c_to_l_sub : Store → ℕ → Line
c_to_l_sub st index = c_to_l st.data_array_sub index

unfoldable pub long_to_line : Store → Line → ℕ → Store
long_to_line st line tag = record st {
  sizes_orig = set st.sizes_orig tag (count_line line);
  data_array_orig = write_bytes st.data_array_orig (tag * 64) line;
}

write_bytes-below :
    (arr : List ℕ) (base : ℕ) (l : Line) (j : ℕ)
    → j < base
    → get_or (write_bytes arr base l) j 0 ≡ get_or arr j 0
unfolding write_bytes
write_bytes-below arr base [] j h = refl
write_bytes-below arr base (b ∷ bs) j h =
    write_bytes-below (set arr base b) (suc base) bs j (omega arith)
    ∙ get_or-set_ne arr base j b 0 (omega arith)

write_bytes-above :
    (arr : List ℕ) (base : ℕ) (l : Line) (j : ℕ)
    → base + length l ≤ j
    → get_or (write_bytes arr base l) j 0 ≡ get_or arr j 0
unfolding write_bytes
write_bytes-above arr base [] j h = refl
write_bytes-above arr base (b ∷ bs) j h =
    write_bytes-above (set arr base b) (suc base) bs j (omega arith)
    ∙ get_or-set_ne arr base j b 0 (omega arith)

write_bytes-inside :
    (arr : List ℕ) (base : ℕ) (l : Line) (j k : ℕ)
    → base + length l ≤ length arr
    → k < length l
    → j ≡ base + k
    → get_or (write_bytes arr base l) j 0 ≡ get_or l k 0
unfolding write_bytes
write_bytes-inside arr base [] j k fits h e = absurd (omega arith)
write_bytes-inside arr base (b ∷ bs) j zero fits h e =
    write_bytes-below (set arr base b) (suc base) bs j (omega arith)
    ∙ rw (e, add-zero) (get_or-set_self arr base b 0 (omega arith))
write_bytes-inside arr base (b ∷ bs) j (suc k) fits h e =
    write_bytes-inside (set arr base b) (suc base) bs j k (omega (arith, length-set arr base b))
      (omega arith) (omega arith)

count_down-ext :
    (f g : ℕ → ℕ) (n : ℕ) → ((k : ℕ) → k < n → f k ≡ g k) → count_down f n ≡ count_down g n
unfolding count_down
count_down-ext f g zero h = refl
count_down-ext f g (suc n) h =
    ap₂ ◌∷◌ (h n (omega arith)) (count_down-ext f g n (λ k l. h k (omega arith)))

count_down-cons :
    (x : ℕ) (xs : Line) (n : ℕ)
    → count_down (λ k. get_or (x ∷ xs) k 0) (suc n) ≡ count_down (λ k. get_or xs k 0) n ++ (x ∷ [])
unfolding count_down
count_down-cons x xs zero = refl
count_down-cons x xs (suc n) = ap (λ l. get_or xs n 0 ∷ l) (count_down-cons x xs n)

count_down-reverse : (l : Line) → count_down (λ k. get_or l k 0) (length l) ≡ reverse l
unfolding count_down
count_down-reverse [] = refl
count_down-reverse (x ∷ xs) =
    count_down-cons x xs (length xs)
    ∙ ap (λ l. l ++ (x ∷ [])) (count_down-reverse xs)
    ∙ sym (reverse-cons x xs)

-- What `c_to_l_orig` reads of an entry that `long_to_line` wrote is the line with its bytes in
-- reverse order; every other entry reads as before.
pub c_to_l_orig-long_to_line :
    (st : Store) (line : Line) (tag index : ℕ)
    → length line ≡ 64
    → tag * 64 + 64 ≤ length st.data_array_orig
    → c_to_l_orig (long_to_line st line tag) index
      ≡ (if index == tag then reverse line else c_to_l_orig st index)
unfolding long_to_line c_to_l
c_to_l_orig-long_to_line st line tag index full fits = elim (ℕ_discrete index tag) [
  | yes same ↦
      rw (same, (==_iff tag tag).1 refl)
        (count_down-ext _ (λ k. get_or line k 0) 64
            (λ k l.
              write_bytes-inside st.data_array_orig (tag * 64) line (tag * 64 + k) k (omega arith)
                (omega arith) refl)
          ∙ subst (λ n. count_down (λ k. get_or line k 0) n ≡ reverse line) full
              (count_down-reverse line))
  | no other ↦ rw (==-ne index tag other) (
      count_down-ext _ _ 64 λ k l. elim (dec_lt index tag) [
        | yes before ↦ write_bytes-below st.data_array_orig (tag * 64) line _ (omega arith)
        | no after ↦ write_bytes-above st.data_array_orig (tag * 64) line _ (omega arith)
      ])
]
