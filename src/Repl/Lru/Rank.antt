-- ===== src/Repl/Lru/Rank.antt =====
-- `LRUReplPolicy::rank` picks a candidate of least score.
use cache_sim.Base.{
  ltb, Bool-cases, lt→ltb, ℕ, ◌-◌, ◌%◌, ◌^◌, ◌≤◌, min, ◌≡◌, refl, ◌⊎◌, inl, inr, Bool, true, List,
  [], ◌∷◌, arith, subst,
}
use cache_sim.Repl.Lru.{Lru, Lines, score, rank_loop, rank}

-- `c` stands in the list.
abbrev pub Among : ℕ → List ℕ → Type 0
Among c [] = ⊥
Among c (x ∷ xs) = (c ≡ x) ⊎ Among c xs

-- The score of `c`, cut to 32 bits, is no more than that of any in the list.
abbrev pub Least : (ℕ → ℕ) → ℕ → List ℕ → Type 0
Least sc c [] = Unit {0}
Least sc c (x ∷ xs) = (sc c % 2 ^ 32 ≤ sc x % 2 ^ 32) × Least sc c xs

-- `r` is the best of the candidates and of the one that the loop began with.
abbrev Best : (ℕ → ℕ) → ℕ → List ℕ → ℕ → Type 0
Best sc b cs r = ((r ≡ b) ⊎ Among r cs) × (sc r % 2 ^ 32 ≤ sc b % 2 ^ 32) × Least sc r cs

rank_loop-Best :
    (sc : ℕ → ℕ) (cs : List ℕ) (b : ℕ) → Best sc b cs (rank_loop sc cs b (sc b % 2 ^ 32))
unfolding rank_loop
rank_loop-Best sc [] b = (inl refl, omega arith, tt)
rank_loop-Best sc (c ∷ cs) b = elim (Bool-cases (ltb (sc c % 2 ^ 32) (sc b % 2 ^ 32))) [
  | inl less ↦
      let m : min (sc c % 2 ^ 32) (sc b % 2 ^ 32) ≡ sc c % 2 ^ 32 = ground arith in
      let (from, le, least) = rank_loop-Best sc cs c in
      let step : rank_loop sc cs c (sc c % 2 ^ 32) ≡ rank_loop sc (c ∷ cs) b (sc b % 2 ^ 32) =
        rw (less, m) in
      subst (Best sc b (c ∷ cs)) step (inr from, ground arith, (le, least))
  | inr more ↦
      let m : min (sc c % 2 ^ 32) (sc b % 2 ^ 32) ≡ sc b % 2 ^ 32 = ground arith in
      let (from, le, least) = rank_loop-Best sc cs b in
      let step : rank_loop sc cs b (sc b % 2 ^ 32) ≡ rank_loop sc (c ∷ cs) b (sc b % 2 ^ 32) =
        rw (more, m) in
      let widened : (rank_loop sc cs b (sc b % 2 ^ 32) ≡ b)
          ⊎ Among (rank_loop sc cs b (sc b % 2 ^ 32)) (c ∷ cs) =
        elim from [ inl e ↦ inl e | inr a ↦ inr (inr a) ] in
      subst (Best sc b (c ∷ cs)) step (widened, le, (ground arith, least))
]

-- Among any candidates `rank` returns one of them, and none of them has a smaller score, as far as
-- the 32 bits tell that are compared.
pub rank-Least :
    (sharers_aware : Bool) (lines : Lines) (r : Lru) (c : ℕ) (cs : List ℕ)
    → Among (rank sharers_aware lines r (c ∷ cs)) (c ∷ cs)
      × Least (score sharers_aware lines r) (rank sharers_aware lines r (c ∷ cs)) (c ∷ cs)
unfolding rank rank_loop
rank-Least sharers_aware lines r c cs =
    let sc : ℕ → ℕ = score sharers_aware lines r in
    let first : ltb (sc c % 2 ^ 32) (2 ^ 64 - 1) ≡ true = lt→ltb _ _ (omega arith) in
    let m : min (sc c % 2 ^ 32) (2 ^ 64 - 1) ≡ sc c % 2 ^ 32 = omega arith in
    let (from, le, least) = rank_loop-Best sc cs c in
    let step : rank_loop sc cs c (sc c % 2 ^ 32) ≡ rank sharers_aware lines r (c ∷ cs) =
      rw (first, m) in
    subst (λ k. Among k (c ∷ cs) × Least sc k (c ∷ cs)) step (from, (le, least))
