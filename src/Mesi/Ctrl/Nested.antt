-- ===== src/Mesi/Ctrl/Nested.antt =====
-- The invariant of a line over the two halves of `MESICC`: the directory is coherent, and what the
-- caches below have of the line this cache has too.
use cache_sim.Mesi.Top.Coherent.{Coherent}
use cache_sim.Mesi.Top.Count.{any}
use cache_sim.Mesi.Types.{is_invalid, MesiState, is_owned}
use cache_sim.Mesi.Ctrl.{MesiCc}
use cache_sim.Mesi.Bottom.{state_at}
use cache_sim.Mesi.Top.{TopCc, Children, entry_at, Entry}
use cache_sim.Base.{
  Bool-cases, length, ℕ, zero, suc, ◌+◌, ◌≤◌, ◌<◌, ◌≡◌, inl, inr, Bool, true, false, arith,
}

module _ {W : Type 0} (kids : Children W) where
  abbrev pub num_kids : MesiCc → ℕ
  num_kids c = length c.tcc.children_rtts

  -- The line in this cache, in the state `s`, covers what the caches below have of it.
  pub record Covers (num : ℕ) (s : MesiState) (w : W) : Type 0 where
    pub valid : (j : ℕ) → j < num → is_invalid (kids.read_state j w) ≡ false → is_invalid s ≡ false
    pub owned : (j : ℕ) → j < num → is_owned (kids.read_state j w) ≡ true → is_owned s ≡ true

  pub record Nested (line : ℕ) (c : MesiCc) (w : W) : Type 0 where
    pub in_bcc : line < length c.bcc.array
    pub in_tcc : line < length c.tcc.array
    pub coherent : Coherent kids (num_kids c) (entry_at c.tcc line) w
    pub covers : Covers (num_kids c) (state_at c.bcc line) w

-- A parent may do anything to the rest of the system while it serves a request, but for the line of
-- the request it leaves the directory entry, the caches below and their data as they are.
abbrev pub SameLine :
    {W : Type 0} → Children W → (ℕ → W → Bool) → ℕ → TopCc × W → TopCc × W → Type 0
SameLine kids dirty line (t, w) (t', w') =
    (entry_at t' line ≡ entry_at t line)
    × (t'.children_rtts ≡ t.children_rtts)
    × (length t'.array ≡ length t.array)
    × ((j : ℕ) → kids.read_state j w' ≡ kids.read_state j w)
    × ((j : ℕ) → dirty j w' ≡ dirty j w)

-- The data under a child can be dirty only while the child has the line in E or M.
abbrev pub DirtyOwned : {W : Type 0} → Children W → (ℕ → W → Bool) → ℕ → Type 0
DirtyOwned {W} kids dirty num =
    (j : ℕ) (w : W) → j < num → dirty j w ≡ true → is_owned (kids.read_state j w) ≡ true

pub any-witness :
    (f : ℕ → Bool) (n c : ℕ) → any f n c ≡ true → (j : ℕ) × (c ≤ j) × (j < c + n) × (f j ≡ true)
unfolding any
any-witness f zero c h = cc
any-witness f (suc n) c h = elim (Bool-cases (f c)) [
  | inl here ↦ (c, omega arith, omega arith, here)
  | inr away ↦
      let (j, lo, hi, on) = any-witness f n (suc c) (ground arith) in
      (j, omega arith, omega arith, on)
]

-- The caches below see the same line.
pub SameLine-Covers :
    {W : Type 0} (kids : Children W) (dirty : ℕ → W → Bool) (line num : ℕ) (s : MesiState)
    (tw tw' : TopCc × W)
    → SameLine kids dirty line tw tw'
    → Covers kids num s tw.1
    → Covers kids num s tw'.1
SameLine-Covers kids dirty line num s tw tw' same cov = record {
  valid = λ j h v. cov.valid j h (rw (← same.3 j) v);
  owned = λ j h o. cov.owned j h (rw (← same.3 j) o);
}

pub SameLine-Coherent :
    {W : Type 0} (kids : Children W) (dirty : ℕ → W → Bool) (line num : ℕ) (e : Entry)
    (tw tw' : TopCc × W)
    → SameLine kids dirty line tw tw'
    → Coherent kids num e tw.1
    → Coherent kids num e tw'.1
SameLine-Coherent kids dirty line num e tw tw' same co = record {
  counts = co.counts;
  alone = co.alone;
  agree = λ j h. rw (same.3 j) (co.agree j h);
}
