-- ===== src/Sched/Barrier/Tally.antt =====
-- The number of elements of a list that satisfy a test, when the list or the test changes.
use cache_sim.Base.{
  ◌==◌, length-set, length, set, get_or-set, get_or, drop_last, ℕ, zero, suc, ◌+◌, ◌-◌, ◌*◌, ◌≤◌,
  ◌<◌, ◌≡◌, refl, ap, ◌≢◌, Bool, true, false, List, [], ◌∷◌, ◌++◌, arith, ℕ_discrete, subst, ◌∙◌,
  drop,
}

abbrev pub one_if : Bool → ℕ
one_if true = 1
one_if false = 0

abbrev pub count : (ℕ → Bool) → List ℕ → ℕ
count p [] = 0
count p (x ∷ xs) = one_if (p x) + count p xs

pub count-le_length : (p : ℕ → Bool) (xs : List ℕ) → count p xs ≤ length xs
count-le_length p [] = omega arith
count-le_length p (x ∷ xs) = ground (arith, count-le_length p xs)

pub count-same : (p q : ℕ → Bool) (xs : List ℕ) → ((t : ℕ) → p t ≡ q t) → count p xs ≡ count q xs
count-same p q [] h = refl
count-same p q (x ∷ xs) h = rw (h x, count-same p q xs h) refl

pub count-set :
    (p : ℕ → Bool) (xs : List ℕ) (i v : ℕ)
    → i < length xs
    → count p (set xs i v) + one_if (p (get_or xs i 0)) ≡ count p xs + one_if (p v)
count-set p [] i v h = absurd (omega arith)
count-set p (x ∷ xs) zero v h = omega arith
count-set p (x ∷ xs) (suc i) v h = omega (arith, count-set p xs i v (omega arith))

-- The element at `j` after a copy of it is written elsewhere.
pub get_or-set_equal :
    (xs : List ℕ) (i j : ℕ) → i < length xs → get_or (set xs i (get_or xs j 0)) j 0 ≡ get_or xs j 0
get_or-set_equal xs i j h = get_or-set xs i j (get_or xs j 0) 0 h ∙ ground arith

-- Two elements that change places.
pub count-swap :
    (p : ℕ → Bool) (xs : List ℕ) (i j : ℕ)
    → i < length xs
    → j < length xs
    → count p (set (set xs i (get_or xs j 0)) j (get_or xs i 0)) ≡ count p xs
count-swap p xs i j hi hj =
    let first = count-set p xs i (get_or xs j 0) hi in
    let second =
      count-set p (set xs i (get_or xs j 0)) j (get_or xs i 0)
        (rw (length-set xs i (get_or xs j 0)) hj) in
    let there = ap (λ v. one_if (p v)) (get_or-set_equal xs i j hi) in
    omega (arith, first, second, there)

pred_suc : (n : ℕ) → suc (suc n) - 1 ≡ suc (suc n - 1)
pred_suc n = omega arith

pub count-drop_last :
    (p : ℕ → Bool) (xs : List ℕ)
    → 0 < length xs
    → count p (drop_last xs) + one_if (p (get_or xs (length xs - 1) 0)) ≡ count p xs
count-drop_last p [] h = absurd (omega arith)
count-drop_last p (x ∷ []) h = omega arith
count-drop_last p (x ∷ y ∷ ys) h =
    let last = ap (λ k. get_or (x ∷ y ∷ ys) k 0) (pred_suc (length ys)) in
    rw last (omega (arith, count-drop_last p (y ∷ ys) (omega arith)))

pub length-drop_last : (xs : List ℕ) → length (drop_last xs) ≡ length xs - 1
length-drop_last [] = refl
length-drop_last (x ∷ []) = refl
length-drop_last (x ∷ y ∷ ys) = omega (arith, length-drop_last (y ∷ ys))

pub count-append :
    (p : ℕ → Bool) (xs : List ℕ) (t : ℕ) → count p (xs ++ (t ∷ [])) ≡ count p xs + one_if (p t)
count-append p [] t = omega arith
count-append p (x ∷ xs) t = omega (arith, count-append p xs t)

pub length-append_one : (xs : List ℕ) (t : ℕ) → length (xs ++ (t ∷ [])) ≡ suc (length xs)
length-append_one [] t = refl
length-append_one (x ∷ xs) t = ap suc (length-append_one xs t)

-- How often `t` is on the list.
abbrev pub occurs : ℕ → List ℕ → ℕ
occurs t xs = count (λ u. u == t) xs

-- A test that changes at one element only.
pub count-change :
    (p q : ℕ → Bool) (xs : List ℕ) (t : ℕ)
    → ((u : ℕ) → u ≢ t → p u ≡ q u)
    → count q xs + occurs t xs * one_if (p t) ≡ count p xs + occurs t xs * one_if (q t)
count-change p q [] t h = omega arith
count-change p q (x ∷ xs) t h = elim (ℕ_discrete x t) [
  | yes e ↦ rw e (ground (arith, count-change p q xs t h))
  | no ne ↦ ground (arith, ne, h x ne, count-change p q xs t h)
]

pub count-change_at :
    (p q : ℕ → Bool) (xs : List ℕ) (t n : ℕ)
    → ((u : ℕ) → u ≢ t → p u ≡ q u)
    → occurs t xs ≡ n
    → count q xs + n * one_if (p t) ≡ count p xs + n * one_if (q t)
count-change_at p q xs t n h e =
    subst (λ k. count q xs + k * one_if (p t) ≡ count p xs + k * one_if (q t)) e
      (count-change p q xs t h)

-- A test that no element satisfies.
pub count-none_of :
    (p : ℕ → Bool) (xs : List ℕ) → ((t : ℕ) → 0 < occurs t xs → p t ≡ false) → count p xs ≡ 0
count-none_of p [] h = refl
count-none_of p (x ∷ xs) h =
    rw (h x (ground arith), count-none_of p xs (λ t o. h t (ground (arith, o)))) refl

pub count-none_at :
    (p : ℕ → Bool) (xs : List ℕ)
    → ((i : ℕ) → i < length xs → p (get_or xs i 0) ≡ false)
    → count p xs ≡ 0
count-none_at p [] h = refl
count-none_at p (x ∷ xs) h =
    rw (h 0 (omega arith), count-none_at p xs (λ i l. h (suc i) (omega arith))) refl

-- An element of the list occurs on it.
pub occurs-get_or : (xs : List ℕ) (i : ℕ) → i < length xs → 0 < occurs (get_or xs i 0) xs
occurs-get_or [] i h = absurd (omega arith)
occurs-get_or (x ∷ xs) zero h = ground arith
occurs-get_or (x ∷ xs) (suc i) h = ground (arith, occurs-get_or xs i (omega arith))

-- An element behind a cut is in the rest.
pub count-drop :
    (p : ℕ → Bool) (xs : List ℕ) (n i : ℕ)
    → n ≤ i
    → i < length xs
    → p (get_or xs i 0) ≡ true
    → 0 < count p (drop n xs)
count-drop p [] n i le h e = absurd (omega arith)
count-drop p (x ∷ xs) zero zero le h e = ground (arith, e)
count-drop p (x ∷ xs) zero (suc i) le h e =
    omega (arith, count-drop p xs 0 i (omega arith) (omega arith) e)
count-drop p (x ∷ xs) (suc n) zero le h e = absurd (omega arith)
count-drop p (x ∷ xs) (suc n) (suc i) le h e = count-drop p xs n i (omega arith) (omega arith) e
