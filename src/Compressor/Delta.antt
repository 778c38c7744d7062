-- ===== src/Compressor/Delta.antt =====
-- `compress` of src/compressor.cpp: the words of a line, less its first word where that is shorter.
use cache_sim.Compressor.Lines.{Line, total_width, sub}
use cache_sim.Base.{
  Bool-cases, ltb, if◌then◌else◌, get_or, ℕ, zero, suc, ◌+◌, ◌*◌, ◌≤◌, ◌≡◌, inl, inr, [], ◌∷◌, ◌++◌,
  arith,
}

-- `num`: the word `i` of a line.
abbrev pub word_at : Line → ℕ → Line
word_at line i =
    get_or line (i * 4) 0
    ∷ get_or line (i * 4 + 1) 0
    ∷ get_or line (i * 4 + 2) 0
    ∷ get_or line (i * 4 + 3) 0
    ∷ []

-- The first word, with its bytes in reverse order.
abbrev pub base_word : Line → Line
base_word line = get_or line 3 0 ∷ get_or line 2 0 ∷ get_or line 1 0 ∷ get_or line 0 0 ∷ []

-- `ss > sn` keeps the word, and else its difference to the base stands in its place.
unfoldable pub pick : Line → Line → Line
pick num base = let s = sub num base in if ltb (total_width num) (total_width s) then num else s

unfoldable pub compress_words : Line → Line → ℕ → ℕ → Line
compress_words line base zero i = []
compress_words line base (suc n) i =
    pick (word_at line i) base ++ compress_words line base n (suc i)

unfoldable pub compress : Line → Line
compress line = base_word line ++ compress_words line (base_word line) 15 1

-- The words of a line one after another.
unfoldable pub words : Line → ℕ → ℕ → Line
words line zero i = []
words line (suc n) i = word_at line i ++ words line n (suc i)

total_width-++ : (a b : Line) → total_width (a ++ b) ≡ total_width a + total_width b
unfolding total_width
total_width-++ [] b = omega arith
total_width-++ (x ∷ a) b = omega (arith, total_width-++ a b)

pick-le : (num base : Line) → total_width (pick num base) ≤ total_width num
unfolding pick
pick-le num base = elim (Bool-cases (ltb (total_width num) (total_width (sub num base)))) [
  | inl wide ↦ rw wide (omega arith)
  | inr narrow ↦ rw narrow (ground (arith, narrow))
]

compress_words-le :
    (line base : Line) (n i : ℕ)
    → total_width (compress_words line base n i) ≤ total_width (words line n i)
unfolding compress_words words
compress_words-le line base zero i = omega arith
compress_words-le line base (suc n) i = omega (
  arith,
  total_width-++ (pick (word_at line i) base) (compress_words line base n (suc i)),
  total_width-++ (word_at line i) (words line n (suc i)),
  pick-le (word_at line i) base,
  compress_words-le line base n (suc i),
)

base_word-total_width : (line : Line) → total_width (base_word line) ≡ total_width (word_at line 0)
unfolding total_width
base_word-total_width line = omega arith

-- The words of a compressed line take no more bits than the sixteen words of the line.
compress-le : (line : Line) → total_width (compress line) ≤ total_width (words line 16 0)
unfolding compress words
compress-le line = omega (
  arith,
  total_width-++ (base_word line) (compress_words line (base_word line) 15 1),
  total_width-++ (word_at line 0) (words line 15 1),
  base_word-total_width line,
  compress_words-le line (base_word line) 15 1,
)
