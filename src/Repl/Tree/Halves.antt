-- ===== src/Repl/Tree/Halves.antt =====
-- The `while` loop of `TreeLRUReplPolicy::getBestCandidate` ends, at one of the candidates.
use cache_sim.Repl.Tree.{get_best_candidate}
use cache_sim.Repl.Tree.{Tree, cand_at, newest_loop, halve, get_best_candidate}
use cache_sim.Base.{
  ==_iff, Bool-cases, ltb, Returns, get_or, ℕ, zero, suc, ◌+◌, ◌-◌, ◌/◌, ◌≤◌, ◌<◌, ◌≡◌, refl, inl,
  inr, Option, none, some, arith,
}

-- The index `i` that a search between `start` and `end` ends with.
abbrev pub EndsIn : ℕ → ℕ → Option ℕ → Type 0
EndsIn start end none = ⊥
EndsIn start end (some i) = (start ≤ i) × (i < end)

wider-EndsIn :
    (start start' end end' : ℕ) (o : Option ℕ)
    → start' ≤ start
    → end ≤ end'
    → EndsIn start end o
    → EndsIn start' end' o
wider-EndsIn start start' end end' none lo hi e = e
wider-EndsIn start start' end end' (some i) lo hi e = (omega (arith, e.0), omega (arith, e.1))

-- As many rounds as there are candidates are enough, and the loop ends between `start` and `end`.
pub halve-EndsIn :
    (t : Tree) (fuel start end : ℕ)
    → start < end
    → end ≤ start + fuel
    → EndsIn start end (halve t fuel start end)
unfolding halve
halve-EndsIn t zero start end some_left enough = absurd (omega arith)
halve-EndsIn t (suc fuel) start end some_left enough = elim (Bool-cases (ltb 1 (end - start))) [
  | inr one ↦ rw one (omega arith, some_left)
  | inl more ↦
      let pivot : ℕ = start + (end - start) / 2 in
      let many : 1 < end - start = ground arith in
      let upper : EndsIn start end (halve t fuel pivot end) =
        wider-EndsIn pivot start end end _ (omega arith) (omega arith)
          (halve-EndsIn t fuel pivot end (omega arith) (omega arith)) in
      let lower : EndsIn start end (halve t fuel start pivot) =
        wider-EndsIn start start pivot end _ (omega arith) (omega arith)
          (halve-EndsIn t fuel start pivot (omega arith) (omega arith)) in
      elim (Bool-cases
        (ltb (newest_loop t (end - pivot) pivot 0) (newest_loop t (pivot - start) start 0))) [
          | inl older ↦ rw (more, older) upper
          | inr newer ↦ rw (more, newer) lower
        ]
]

-- The value that some candidate in the range has.
abbrev pub IsCand : Tree → ℕ → Type 0
IsCand t v = (i : ℕ) × (i < t.num_cands) × (v ≡ get_or t.cand_array i 0)

cand_at-IsCand :
    (t : Tree) (o : Option ℕ) → EndsIn 0 t.num_cands o → Returns (cand_at t o) (IsCand t)
cand_at-IsCand t none e = absurd e
cand_at-IsCand t (some i) e = (i, e.1, refl)

-- When all the candidates are recorded, and there is one at least, the search ends, and its result is
-- one of them.
pub get_best_candidate-IsCand :
    (t : Tree)
    → t.cand_idx ≡ t.num_cands
    → 0 < t.num_cands
    → Returns (get_best_candidate t) (IsCand t)
unfolding get_best_candidate
get_best_candidate-IsCand t full some_cand =
    rw ((==_iff t.cand_idx t.num_cands).1 full)
      (cand_at-IsCand t _ (halve-EndsIn t t.num_cands 0 t.num_cands some_cand (omega arith)))
