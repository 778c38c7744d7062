-- ===== src/Util/PrioQueue/Blocks.antt =====
-- A block of `PrioQueue` gives back the newest element of its earliest cycle.
use cache_sim.Util.PrioQueue.{take_from, lowest, block_dequeue, PqBlock, block_enqueue, dequeue_at}
use cache_sim.Base.{
  Returns, length-set, get_or, length, set, get_or-set_self, ℕ, zero, suc, ◌+◌, ◌<◌, ◌≡◌, refl, ap,
  ◌∙◌, Bool, true, false, some, List, [], ◌∷◌, arith, sym, subst,
}

lowest-set :
    (bs : List Bool) (pos base : ℕ)
    → pos < length bs
    → ((j : ℕ) → j < pos → get_or bs j false ≡ false)
    → lowest (set bs pos true) base ≡ some (base + pos)
unfolding lowest
lowest-set [] pos base h low = absurd (omega arith)
lowest-set (b ∷ bs) zero base h low = ap some (omega arith)
lowest-set (b ∷ bs) (suc pos) base h low = rw (low 0 (omega arith)) (
    lowest-set bs pos (suc base) (omega arith) (λ j lt. low (suc j) (omega arith))
    ∙ ap some (omega arith))

-- What comes out of a block: the element, its offset, and the chain that it leaves at that offset.
abbrev pub Taken : ℕ → ℕ → List ℕ → ℕ × ℕ × PqBlock → Type 0
Taken obj pos chain (x, offset, b) = (x ≡ obj) × (offset ≡ pos) × (get_or b.array pos [] ≡ chain)

take_from-Taken :
    (obj pos : ℕ) (chain : List ℕ) (b : PqBlock)
    → pos < length b.array
    → Returns (take_from (obj ∷ chain) b pos) (Taken obj pos chain)
take_from-Taken obj pos [] b h = (refl, refl, get_or-set_self b.array pos [] [] h)
take_from-Taken obj pos (y ∷ rest) b h = (refl, refl, get_or-set_self b.array pos (y ∷ rest) [] h)

dequeue_at-Taken :
    (obj pos : ℕ) (chain : List ℕ) (b : PqBlock)
    → get_or b.array pos [] ≡ obj ∷ chain
    → pos < length b.array
    → Returns (dequeue_at (some pos) b) (Taken obj pos chain)
dequeue_at-Taken obj pos chain b e h =
    subst (λ c. Returns (take_from c b pos) (Taken obj pos chain)) (sym e)
      (take_from-Taken obj pos chain b h)

-- An element that goes into a block with no earlier element comes out of it next, with its offset, and
-- leaves the chain of that offset as it was.
pub block_dequeue-block_enqueue :
    (b : PqBlock) (obj pos : ℕ)
    → pos < length b.array
    → pos < length b.occ
    → ((j : ℕ) → j < pos → get_or b.occ j false ≡ false)
    → Returns (block_dequeue (block_enqueue b obj pos)) (Taken obj pos (get_or b.array pos []))
unfolding block_dequeue block_enqueue
block_dequeue-block_enqueue b obj pos h h' low =
    let chain : List ℕ = get_or b.array pos [] in
    let first : lowest (set b.occ pos true) 0 ≡ some pos =
      lowest-set b.occ pos 0 h' low ∙ ap some (omega arith) in
    subst (λ o. Returns (dequeue_at o (block_enqueue b obj pos)) (Taken obj pos chain)) (sym first)
      (dequeue_at-Taken obj pos chain (block_enqueue b obj pos)
        (get_or-set_self b.array pos (obj ∷ chain) [] h)
        (subst (λ n. pos < n) (sym (length-set b.array pos (obj ∷ chain))) h))
