-- ===== src/Compressor/Pairs.antt =====
-- `compare`: a line that comes in is paired with the first free line that makes it smaller.
use cache_sim.Compressor.Store.{long_to_line, Store, num_lines, write_bytes, c_to_l_orig}
use cache_sim.Base.{
  Bool-cases, ◌==◌, if◌then◌else◌, ltb, get_or-set_self, length, length-set, set, get_or,
  get_or-set_ne, ℕ, zero, suc, ◌+◌, ◌*◌, ◌≤◌, ◌<◌, ◌≡◌, refl, sym, subst, ◌∙◌, ◌≢◌, inl, inr, Bool,
  true, false, not, ◌&&◌, ◌||◌, Option, none, some, arith, ℕ_discrete,
}
use cache_sim.Compressor.Lines.{Line, count_line, xxor}

-- The tests of the loop at `index`: the entry is initialized and free, it is not the line's own, and
-- the xor is smaller than the line.
abbrev pub is_partner : Store → Line → ℕ → ℕ → Bool
is_partner st line tag index =
    if not (get_or st.initialized index false) || get_or st.occupied index false
    then false
    else ltb (count_line (xxor (c_to_l_orig st index) line)) (count_line line) && not (index == tag)

-- The `while` loop with `n` rounds left, up to its `break`.
unfoldable pub find_partner : Store → Line → ℕ → ℕ → ℕ → Option ℕ
find_partner st line tag zero index = none
find_partner st line tag (suc n) index =
    let rest = find_partner st line tag n (suc index) in
    if is_partner st line tag index then some index else rest

-- `ret` and `min` after the loop.
abbrev pub partner_tag : ℕ → Option ℕ → ℕ
partner_tag tag none = tag
partner_tag tag (some p) = p

abbrev pub partner_min : Store → Line → Option ℕ → Line
partner_min st line none = line
partner_min st line (some p) = xxor (c_to_l_orig st p) line

-- What follows the loop, from `ret` and `min`.
unfoldable pub link : Store → ℕ → ℕ → Store × ℕ
link st tag ret =
    if not (get_or st.initialized ret false)
    then (
      record st {
        uncompress_size = st.uncompress_size + 256;
        initialized = set st.initialized tag true;
      },
      tag,
    )
    else (
      record st {
        index_ref = set (set st.index_ref ret tag) tag ret;
        occupied = set (set st.occupied ret true) tag true;
      },
      ret,
    )

unfoldable pub write_pair : Store → Line → Line → ℕ → ℕ → Store
write_pair st line xor_line tag ret =
    let st' = long_to_line st line tag in
    record st' {
      sizes_xor = set st'.sizes_xor ret (count_line xor_line);
      data_array = write_bytes (write_bytes st'.data_array (ret * 64) xor_line) (tag * 64) xor_line;
    }

unfoldable pub compare_line : Store → Line → ℕ → Store × Line
compare_line st line tag =
    let found = find_partner st line tag num_lines 0 in
    let min_line = partner_min st line found in
    let (st', ret) = link st tag (partner_tag tag found) in
    (write_pair st' line min_line tag ret, min_line)

-- What the loop answers over a range.
abbrev pub Partner : Store → Line → ℕ → ℕ → ℕ → Option ℕ → Type 0
Partner st line tag n index none =
    (k : ℕ) → index ≤ k → k < index + n → is_partner st line tag k ≡ false
Partner st line tag n index (some p) =
    (index ≤ p) × (p < index + n) × (is_partner st line tag p ≡ true)

extend-Partner :
    (st : Store) (line : Line) (tag n index : ℕ) (o : Option ℕ)
    → is_partner st line tag index ≡ false
    → Partner st line tag n (suc index) o
    → Partner st line tag (suc n) index o
extend-Partner st line tag n index none miss f = λ k lo hi. elim (ℕ_discrete index k) [
  | yes e ↦ subst (λ j. is_partner st line tag j ≡ false) e miss
  | no ne ↦ f k (omega arith) (omega arith)
]
extend-Partner st line tag n index (some p) miss f = (omega arith, omega arith, f.2)

find_partner-Partner :
    (st : Store) (line : Line) (tag n index : ℕ)
    → Partner st line tag n index (find_partner st line tag n index)
unfolding find_partner
find_partner-Partner st line tag zero index = λ k lo hi. absurd (omega arith)
find_partner-Partner st line tag (suc n) index = elim (Bool-cases (is_partner st line tag index)) [
  | inl hit ↦ rw hit (omega arith, omega arith, hit)
  | inr miss ↦
      rw miss
        (extend-Partner st line tag n index _ miss (find_partner-Partner st line tag n (suc index)))
]

-- A pair of lines: each refers to the other, and both are taken.
pub record Paired (st : Store) (tag p : ℕ) : Type 0 where
  pub forth : get_or st.index_ref tag 0 ≡ p
  pub back : get_or st.index_ref p 0 ≡ tag
  pub taken : (get_or st.occupied tag false ≡ true) × (get_or st.occupied p false ≡ true)

-- The arrays have an entry for each line.
pub record HasRoom (st : Store) : Type 0 where
  pub refs : length st.index_ref ≡ num_lines
  pub occ : length st.occupied ≡ num_lines

-- What `compare_line` makes of a line, by what the loop found.
abbrev pub Compared : Store → Line → ℕ → Option ℕ → Store × Line → Type 0
Compared st line tag none (st', out) =
    (out ≡ line) × ((k : ℕ) → k < num_lines → is_partner st line tag k ≡ false)
Compared st line tag (some p) (st', out) =
    (out ≡ xxor (c_to_l_orig st p) line)
    × (count_line out < count_line line)
    × (p ≢ tag)
    × (get_or st.occupied p false ≡ false)
    × Paired st' tag p

-- `compare_line` pairs the line with a line that was initialized and free, hands back an xor that is
-- strictly smaller than the line, and makes the two refer to each other and count as taken; or it
-- hands back the line itself, and then no line of the cache was a partner.
pub compare_line-Compared :
    (st : Store) (line : Line) (tag : ℕ)
    → HasRoom st
    → tag < num_lines
    → (o : Option ℕ) × Compared st line tag o (compare_line st line tag)
unfolding compare_line link write_pair long_to_line
compare_line-Compared st line tag room h =
    go (find_partner st line tag num_lines 0) refl (find_partner-Partner st line tag num_lines 0)
  where
    go :
        (o : Option ℕ)
        → find_partner st line tag num_lines 0 ≡ o
        → Partner st line tag num_lines 0 o
        → (o' : Option ℕ) × Compared st line tag o' (compare_line st line tag)
    go none e part = (none, (rw e refl, λ k lt. part k (omega arith) (omega arith)))
    go (some p) e part =
        let ready : get_or st.initialized p false ≡ true = ground (arith, part.2) in
        let ne : p ≢ tag = ground (arith, part.2) in
        (
          some p,
          rw (e, ready)
              (
                refl,
                ground (arith, part.2),
                ne,
                ground (arith, part.2),
                record {
                  forth =
                      get_or-set_self (set st.index_ref p tag) tag p 0
                        (omega (arith, length-set st.index_ref p tag, room.refs));
                  back =
                      get_or-set_ne (set st.index_ref p tag) tag p p 0 (λ q. ne (sym q))
                      ∙ get_or-set_self st.index_ref p tag 0 (omega (arith, room.refs, part.1));
                  taken = (
                    get_or-set_self (set st.occupied p true) tag true false
                        (omega (arith, length-set st.occupied p true, room.occ)),
                    get_or-set_ne (set st.occupied p true) tag p true false (λ q. ne (sym q))
                        ∙ get_or-set_self st.occupied p true false
                            (omega (arith, room.occ, part.1)),
                  );
                },
              ),
        )
