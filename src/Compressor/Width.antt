-- ===== src/Compressor/Width.antt =====
-- `countWidth` is the bit length of a byte, and `countLine` the size of a line in bytes.
use cache_sim.Base.{
  ltb, ◌==◌, leb, length, ℕ, zero, suc, ◌+◌, ◌-◌, ◌*◌, ◌^◌, ◌≤◌, ◌<◌, ◌≡◌, refl, ◌⊎◌, Bool, true,
  ◌&&◌, ◌||◌, [], ◌∷◌, arith, if◌then◌else◌, subst, false, ℕ_discrete, Bool-cases, ap, inl, inr,
  List,
}
use cache_sim.Compressor.Lines.{Line, AreBytes, count_width, total_width, count_line}

-- A test passes on each number of a range, counted upwards.
unfoldable pub passes : (ℕ → Bool) → ℕ → ℕ → Bool
passes test from zero = true
passes test from (suc len) = if test from then passes test (suc from) len else false

pub byte_passes :
    (test : ℕ → Bool) (from len b : ℕ)
    → from ≤ b
    → b < from + len
    → passes test from len ≡ true
    → test b ≡ true
unfolding passes
byte_passes test from zero b lo hi ok = absurd (omega arith)
byte_passes test from (suc len) b lo hi ok = elim (ℕ_discrete from b) [
  | yes here ↦ subst (λ k. test k ≡ true) here (ground arith)
  | no later ↦ byte_passes test (suc from) len b (omega arith) (omega arith) (ground arith)
]

-- The bit length of `x` is `w`: the least power of two above `x` is `2 ^ w`.
abbrev is_bit_length : ℕ → ℕ → Bool
is_bit_length x w = ltb x (2 ^ w) && (w == 0 || leb (2 ^ (w - 1)) x)

width_table : passes (λ x. is_bit_length x (count_width x)) 0 256 ≡ true
unfolding passes count_width
width_table = refl

-- `w` is the least number of bits that hold `x`.
abbrev pub IsBitLength : ℕ → ℕ → Type 0
IsBitLength x w = (x < 2 ^ w) × ((w ≡ 0) ⊎ (2 ^ (w - 1) ≤ x))

plus_suc : (k d : ℕ) → k + suc d ≡ suc (k + d)
plus_suc k d = omega arith

le_or_lt : (v w : ℕ) → (v ≤ w) ⊎ (w < v)
le_or_lt v w = elim (Bool-cases (leb v w)) [
  | inl y ↦ inl (ground (arith, y))
  | inr n ↦ inr (ground (arith, n))
]

-- For every byte, `count_width` is the least number of bits that hold it.
count_width-least : (x : ℕ) → x < 256 → IsBitLength x (count_width x)
count_width-least x h =
    ground (
      arith,
      byte_passes (λ x. is_bit_length x (count_width x)) 0 256 x (omega arith) h width_table,
    )

width_max : passes (λ x. leb (count_width x) 8) 0 256 ≡ true
unfolding passes count_width
width_max = refl

pub count_width-le : (x : ℕ) → x < 256 → count_width x ≤ 8
count_width-le x h =
    ground (arith, byte_passes (λ x. leb (count_width x) 8) 0 256 x (omega arith) h width_max)

total_width-le : (l : Line) → AreBytes l → total_width l ≤ 8 * length l
unfolding total_width
total_width-le [] h = omega arith
total_width-le (b ∷ bs) h = omega (arith, count_width-le b h.0, total_width-le bs h.1)

-- The numbers of bits of the bytes, one by one.
abbrev pub AreWidths : Line → List ℕ → Type 0
AreWidths [] [] = Unit {0}
AreWidths (b ∷ bs) (w ∷ ws) = IsBitLength b w × AreWidths bs ws
AreWidths [] (w ∷ ws) = ⊥
AreWidths (b ∷ bs) [] = ⊥

pow_le : (k d : ℕ) → 2 ^ k ≤ 2 ^ (k + d)
pow_le k zero =
    let same : 2 ^ (k + 0) ≡ 2 ^ k = ap (λ n. 2 ^ n) (omega arith) in omega (arith, same)
pow_le k (suc d) =
    let next : 2 ^ (k + suc d) ≡ 2 ^ suc (k + d) = ap (λ n. 2 ^ n) (plus_suc k d) in
    omega (arith, pow_le k d, next)

-- Two numbers of bits of a byte: neither is smaller.
bit_length-le : (x v w : ℕ) → IsBitLength x v → IsBitLength x w → v ≤ w
bit_length-le x v w hv hw = elim hv.1 [
  | inl e ↦ omega (arith, e)
  | inr lo ↦ elim (le_or_lt v w) [
    | inl le ↦ le
    | inr lt ↦
        let up = pow_le w (v - 1 - w) in
        let same : 2 ^ (w + (v - 1 - w)) ≡ 2 ^ (v - 1) = ap (λ n. 2 ^ n) (omega (arith, lt)) in
        absurd (omega (arith, up, same, lo, hw.0))
  ]
]

unfoldable pub sum : List ℕ → ℕ
sum [] = 0
sum (w ∷ ws) = w + sum ws

total_width-sum : (l : Line) (ws : List ℕ) → AreBytes l → AreWidths l ws → total_width l ≡ sum ws
unfolding total_width sum
total_width-sum [] [] h a = refl
total_width-sum (b ∷ bs) (w ∷ ws) h a =
    let least = count_width-least b h.0 in
    omega (
      arith,
      total_width-sum bs ws h.1 a.1,
      bit_length-le b w (count_width b) a.0 least,
      bit_length-le b (count_width b) w least a.0,
    )
total_width-sum [] (w ∷ ws) h a = absurd a
total_width-sum (b ∷ bs) [] h a = absurd a

-- For a line of bytes whose least numbers of bits are `ws`, `count_line` is the least number of bytes
-- that hold the sum of `ws` in bits, and no more than the length of the line.
pub count_line-least :
    (l : Line) (ws : List ℕ)
    → AreBytes l
    → AreWidths l ws
    → (sum ws ≤ 8 * count_line l) × (8 * count_line l < sum ws + 8) × (count_line l ≤ length l)
unfolding count_line
count_line-least l ws h a = ground (arith, total_width-le l h, total_width-sum l ws h a)
