-- ===== src/Base/Lists.antt =====
-- Arrays as lists with native indices. A read out of range gives the default that the call names,
-- and a write out of range changes nothing; theorems carry the bounds where they matter.
use Prim.Native.Nat.{ℕ, zero, suc, ◌<◌, ◌≤◌}
use mathlib.Core.Path.{◌≡◌, refl, ap}
use mathlib.Core.Logic.{◌≢◌}
use mathlib.Core.List.{List, [], ◌∷◌}
use cache_sim.Base.Tests.{◌==◌, if◌then◌else◌}
use native.Mathlib.Omega.{arith}

module _ {ℓ} {A : Type ℓ} where
  abbrev pub length : List A → ℕ
  length [] = 0
  length (x ∷ xs) = suc (length xs)

  abbrev pub get_or : List A → ℕ → A → A
  get_or [] i d = d
  get_or (x ∷ xs) zero d = x
  get_or (x ∷ xs) (suc i) d = get_or xs i d

  abbrev pub set : List A → ℕ → A → List A
  set [] i v = []
  set (x ∷ xs) zero v = v ∷ xs
  set (x ∷ xs) (suc i) v = x ∷ set xs i v

  abbrev pub replicate : ℕ → A → List A
  replicate zero a = []
  replicate (suc n) a = a ∷ replicate n a

module _ {ℓ} {A : Type ℓ} where
  pub length-set : (xs : List A) (i : ℕ) (v : A) → length (set xs i v) ≡ length xs
  length-set [] i v = refl
  length-set (x ∷ xs) zero v = refl
  length-set (x ∷ xs) (suc i) v = ap suc (length-set xs i v)

  pub get_or-set_self :
      (xs : List A) (i : ℕ) (v d : A) → i < length xs → get_or (set xs i v) i d ≡ v
  get_or-set_self [] i v d h = absurd (omega arith)
  get_or-set_self (x ∷ xs) zero v d h = refl
  get_or-set_self (x ∷ xs) (suc i) v d h = get_or-set_self xs i v d (omega arith)

  pub get_or-set_ne :
      (xs : List A) (i j : ℕ) (v d : A) → i ≢ j → get_or (set xs i v) j d ≡ get_or xs j d
  get_or-set_ne [] i j v d h = refl
  get_or-set_ne (x ∷ xs) zero zero v d h = absurd (h refl)
  get_or-set_ne (x ∷ xs) zero (suc j) v d h = refl
  get_or-set_ne (x ∷ xs) (suc i) zero v d h = refl
  get_or-set_ne (x ∷ xs) (suc i) (suc j) v d h = get_or-set_ne xs i j v d (λ e. h (ap suc e))

  pub length-replicate : (n : ℕ) (a : A) → length (replicate n a) ≡ n
  length-replicate zero a = refl
  length-replicate (suc n) a = ap suc (length-replicate n a)

  pub get_or-replicate : (n i : ℕ) (a : A) → get_or (replicate n a) i a ≡ a
  get_or-replicate zero i a = refl
  get_or-replicate (suc n) zero a = refl
  get_or-replicate (suc n) (suc i) a = get_or-replicate n i a

  -- The same laws in the form of a test.
  pub get_or-set :
      (xs : List A) (i j : ℕ) (v d : A)
      → i < length xs
      → get_or (set xs i v) j d ≡ (if i == j then v else get_or xs j d)
  get_or-set [] i j v d h = absurd (omega arith)
  get_or-set (x ∷ xs) zero zero v d h = refl
  get_or-set (x ∷ xs) zero (suc j) v d h = ground arith
  get_or-set (x ∷ xs) (suc i) zero v d h = ground arith
  get_or-set (x ∷ xs) (suc i) (suc j) v d h = ground (arith, get_or-set xs i j v d (omega arith))

  -- Writing the default is a write wherever it lands.
  pub get_or-set_default :
      (xs : List A) (i j : ℕ) (d : A)
      → get_or (set xs i d) j d ≡ (if i == j then d else get_or xs j d)
  get_or-set_default [] i j d = ground arith
  get_or-set_default (x ∷ xs) zero zero d = refl
  get_or-set_default (x ∷ xs) zero (suc j) d = ground arith
  get_or-set_default (x ∷ xs) (suc i) zero d = ground arith
  get_or-set_default (x ∷ xs) (suc i) (suc j) d = ground (arith, get_or-set_default xs i j d)

module _ {ℓ} {A : Type ℓ} where
  abbrev pub drop : ℕ → List A → List A
  drop zero xs = xs
  drop (suc n) [] = []
  drop (suc n) (x ∷ xs) = drop n xs

  -- All elements but the last.
  abbrev pub drop_last : List A → List A
  drop_last [] = []
  drop_last (x ∷ []) = []
  drop_last (x ∷ y ∷ ys) = x ∷ drop_last (y ∷ ys)

  pub drop-[] : (n : ℕ) (xs : List A) → drop n xs ≡ [] → length xs ≤ n
  drop-[] zero [] e = omega arith
  drop-[] zero (x ∷ xs) e = cc
  drop-[] (suc n) [] e = omega arith
  drop-[] (suc n) (x ∷ xs) e = omega (arith, drop-[] n xs e)

  -- The element at which a list is cut, and the rest behind it.
  pub drop-∷ :
      (n : ℕ) (xs rest : List A) (x d : A)
      → drop n xs ≡ x ∷ rest
      → (n < length xs) × (get_or xs n d ≡ x) × (drop (suc n) xs ≡ rest)
  drop-∷ zero [] rest x d e = cc
  drop-∷ zero (y ∷ ys) rest x d e = (omega arith, cc, cc)
  drop-∷ (suc n) [] rest x d e = cc
  drop-∷ (suc n) (y ∷ ys) rest x d e =
      let r = drop-∷ n ys rest x d e in (omega (arith, r.0), r.1, r.2)
