-- ===== src/Sched/Scheduler/Lists.antt =====
-- Threads and contexts on lists: how often a node occurs after one is taken off or put on, what the
-- first node that passes a test is, and a store after a write.
use cache_sim.Sched.Barrier.Tally.{count-append, occurs, one_if}
use cache_sim.Sched.Scheduler.{first_fit, on, put, erase, range_from}
use cache_sim.Base.{
  Bool-cases, ◌==◌, length, ℕ, suc, ◌<◌, ◌≡◌, refl, sym, subst, ◌≢◌, inl, inr, Bool, true, false,
  none, some, List, [], ◌∷◌, ◌++◌, arith, ℕ_discrete, leb, ltb, zero, ◌+◌, ap, ◌&&◌, ◌≤◌,
}

pub put_self {ℓ} : {A : Type ℓ} (f : ℕ → A) (i : ℕ) (v : A) → put f i v i ≡ v
put_self f i v = ground arith

pub put_other {ℓ} : {A : Type ℓ} (f : ℕ → A) (i j : ℕ) (v : A) → j ≢ i → put f i v j ≡ f j
put_other f i j v ne = ground (arith, ne)

pub erase_other : (g u : ℕ) (xs : List ℕ) → u ≢ g → occurs u (erase g xs) ≡ occurs u xs
erase_other g u [] ne = refl
erase_other g u (x ∷ xs) ne = ground (arith, ne, erase_other g u xs ne)

pub erase_self : (g : ℕ) (xs : List ℕ) → 0 < occurs g xs → suc (occurs g (erase g xs)) ≡ occurs g xs
erase_self g [] h = absurd (omega arith)
erase_self g (x ∷ xs) h = ground (arith, erase_self g xs)

pub erase_le : (g u : ℕ) (xs : List ℕ) → 0 < occurs g xs → occurs u (erase g xs) ≤ occurs u xs
erase_le g u xs here = elim (ℕ_discrete u g) [
  | yes e ↦ rw e (omega (arith, erase_self g xs here))
  | no ne ↦ omega (arith, erase_other g u xs ne)
]

pub length-erase : (g : ℕ) (xs : List ℕ) → 0 < occurs g xs → suc (length (erase g xs)) ≡ length xs
length-erase g [] h = absurd (omega arith)
length-erase g (x ∷ xs) h = ground (arith, length-erase g xs)

pub append_other : (g u : ℕ) (xs : List ℕ) → u ≢ g → occurs u (xs ++ (g ∷ [])) ≡ occurs u xs
append_other g u xs ne =
    let differs : g ≢ u = λ e. ne (sym e) in
    ground (arith, count-append (λ v. v == u) xs g, differs)

pub append_self : (g : ℕ) (xs : List ℕ) → occurs g (xs ++ (g ∷ [])) ≡ suc (occurs g xs)
append_self g xs = ground (arith, count-append (λ v. v == g) xs g)

pub first_fit-some :
    (p : ℕ → Bool) (xs : List ℕ) (g : ℕ)
    → first_fit p xs ≡ some g
    → (p g ≡ true) × (0 < occurs g xs)
first_fit-some p [] g e = cc
first_fit-some p (x ∷ xs) g e = elim (Bool-cases (p x)) [
  | inl y ↦
      let same : x ≡ g = ground (arith, y, e) in
      (subst (λ u. p u ≡ true) same y, rw same (ground arith))
  | inr n ↦ let r = first_fit-some p xs g (ground (arith, n, e)) in (r.0, omega (arith, r.1))
]

pub first_fit-none :
    (p : ℕ → Bool) (xs : List ℕ) (g : ℕ) → first_fit p xs ≡ none → 0 < occurs g xs → p g ≡ false
first_fit-none p [] g e h = absurd (omega arith)
first_fit-none p (x ∷ xs) g e h = elim (Bool-cases (p x)) [
  | inl y ↦ absurd (ground (arith, y, e))
  | inr n ↦ elim (ℕ_discrete x g) [
    | yes same ↦ subst (λ u. p u ≡ false) same n
    | no ne ↦ first_fit-none p xs g (ground (arith, n, e)) (ground (arith, ne, h))
  ]
]

pub on-lt : (g : ℕ) (xs : List ℕ) → 0 < occurs g xs → on g xs ≡ true
on-lt g xs h = ground arith

pub on-zero : (g : ℕ) (xs : List ℕ) → occurs g xs ≡ 0 → on g xs ≡ false
on-zero g xs h = ground arith

pub length-range_from : (i n : ℕ) → length (range_from i n) ≡ n
length-range_from i zero = refl
length-range_from i (suc n) = ap suc (length-range_from (i + 1) n)

pub occurs-range_from : (c i n : ℕ) → occurs c (range_from i n) ≡ one_if (leb i c && ltb c (i + n))
occurs-range_from c i zero = ground arith
occurs-range_from c i (suc n) = ground (arith, occurs-range_from c (i + 1) n)
