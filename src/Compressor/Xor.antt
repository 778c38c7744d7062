-- ===== src/Compressor/Xor.antt =====
-- `xxor` and `sub` undo themselves: a line of a pair can be recovered from the other and their xor.
use Prim.Native.Nat.{bit_xor}
use cache_sim.Compressor.Width.{passes, byte_passes}
use cache_sim.Base.{==_iff, ◌==◌, length, ℕ, ◌<◌, ◌≡◌, refl, true, [], ◌∷◌, arith, ap₂, Bool}
use cache_sim.Compressor.Lines.{Line, AreBytes, xxor, add, sub, zip_bytes}

-- Row `x` of the table of all pairs of bytes.
abbrev xor_row : ℕ → Bool
xor_row x = passes (λ y. bit_xor (bit_xor x y) y == x) 0 256

xor_table : passes xor_row 0 256 ≡ true
unfolding passes
xor_table = refl

xor_twice : (x y : ℕ) → x < 256 → y < 256 → bit_xor (bit_xor x y) y ≡ x
xor_twice x y hx hy =
    let row : xor_row x ≡ true = byte_passes xor_row 0 256 x (omega arith) hx xor_table in
    (==_iff _ x).0 (byte_passes (λ y. bit_xor (bit_xor x y) y == x) 0 256 y (omega arith) hy row)

-- A line of bytes that is xored twice with another line of bytes of the same length comes back.
xxor-xxor : (a b : Line) → AreBytes a → AreBytes b → length a ≡ length b → xxor (xxor a b) b ≡ a
unfolding xxor zip_bytes
xxor-xxor [] b ha hb e = refl
xxor-xxor (x ∷ xs) [] ha hb e = absurd (omega arith)
xxor-xxor (x ∷ xs) (y ∷ ys) ha hb e =
    ap₂ ◌∷◌ (xor_twice x y ha.0 hb.0) (xxor-xxor xs ys ha.1 hb.1 (omega arith))

-- A line of bytes to which another of the same length was added comes back when it is subtracted.
sub-add : (a b : Line) → AreBytes a → AreBytes b → length a ≡ length b → sub (add a b) b ≡ a
unfolding sub add zip_bytes
sub-add [] b ha hb e = refl
sub-add (x ∷ xs) [] ha hb e = absurd (omega arith)
sub-add (x ∷ xs) (y ∷ ys) ha hb e =
    ap₂ ◌∷◌ (omega (arith, ha.0, hb.0)) (sub-add xs ys ha.1 hb.1 (omega arith))
