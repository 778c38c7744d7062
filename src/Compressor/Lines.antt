-- ===== src/Compressor/Lines.antt =====
-- `Line` and the operations on it. A line is the list of its 64 bytes, each a number below 256.
use Prim.Native.Nat.{bit_xor}
use cache_sim.Base.{
  ℕ, ltb, leb, if◌then◌else◌, ◌==◌, replicate, zero, suc, ◌+◌, ◌-◌, ◌/◌, ◌%◌, ◌^◌, ◌<◌, List, [],
  ◌∷◌,
}

abbrev pub Line : Type 0
Line = List ℕ

abbrev pub line_size : ℕ
line_size = 64

abbrev pub zero_line : Line
zero_line = replicate line_size 0

-- A line of bytes.
abbrev pub AreBytes : Line → Type 0
AreBytes [] = Unit {0}
AreBytes (b ∷ bs) = (b < 256) × AreBytes bs

-- The loop of `countWidth`, with `n` rounds left: the first `i` with `num <= pow(2, i) - 1`.
width_loop : ℕ → ℕ → ℕ → ℕ
width_loop num zero i = 8
width_loop num (suc n) i =
    let rest = width_loop num n (suc i) in if leb num (2 ^ i - 1) then i else rest

unfoldable pub count_width : ℕ → ℕ
unfolding width_loop
count_width num = width_loop num 8 0

-- The sum over the bytes in `countLine`.
unfoldable pub total_width : Line → ℕ
total_width [] = 0
total_width (b ∷ bs) = count_width b + total_width bs

-- Bits are rounded up to bytes.
unfoldable pub count_line : Line → ℕ
count_line line =
    if ltb 0 (total_width line % 8) then total_width line / 8 + 1 else total_width line / 8

-- A loop over the bytes of two lines.
unfoldable pub zip_bytes : (ℕ → ℕ → ℕ) → Line → Line → Line
zip_bytes f [] ys = []
zip_bytes f (x ∷ xs) [] = []
zip_bytes f (x ∷ xs) (y ∷ ys) = f x y ∷ zip_bytes f xs ys

-- `xxor`, `add` and `sub`; a byte wraps.
unfoldable pub xxor : Line → Line → Line
xxor l1 l2 = zip_bytes bit_xor l1 l2

unfoldable pub add : Line → Line → Line
add l1 l2 = zip_bytes (λ x y. (x + y) % 256) l1 l2

unfoldable pub sub : Line → Line → Line
sub l1 l2 = zip_bytes (λ x y. (x + 256 - y) % 256) l1 l2

-- `Empty`: 1 if some byte is not 0.
unfoldable pub empty : Line → ℕ
empty [] = 0
empty (b ∷ bs) = if b == 0 then empty bs else 1
