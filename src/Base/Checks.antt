-- ===== src/Base/Checks.antt =====
-- The outcome of simulator code that checks itself: it goes on with a value, or an `assert` or a
-- `panic` ends the simulation.
use cache_sim.Base.Tests.{if◌then◌else◌}
use mathlib.Core.Path.{◌≡◌, refl}
use mathlib.Core.Bool.{Bool, true, false}

pub data Outcome {ℓ} (A : Type ℓ) : Type ℓ where
  done : A → Outcome A
  failed : Outcome A

infixl 5 ◌>>=◌ ◌>>◌
abbrev pub ◌>>=◌ {ℓ κ} : {A : Type ℓ} {B : Type κ} → Outcome A → (A → Outcome B) → Outcome B
done a >>= f = f a
failed >>= f = failed

abbrev pub ◌>>◌ {ℓ} : {B : Type ℓ} → Outcome (Unit {0}) → Outcome B → Outcome B
m >> k = m >>= λ _. k

-- `assert(b)`
abbrev pub assert : Bool → Outcome (Unit {0})
assert true = done tt
assert false = failed

-- The code returns, and what it returns satisfies `P`.
abbrev pub Returns {ℓ} : {A : Type ℓ} → Outcome A → (A → Type 0) → Type 0
Returns (done a) P = P a
Returns failed P = ⊥

pub Returns->>= {ℓ κ} :
    {A : Type ℓ} {B : Type κ} (m : Outcome A) (f : A → Outcome B) (P : A → Type 0) (Q : B → Type 0)
    → Returns m P
    → ((a : A) → P a → Returns (f a) Q)
    → Returns (m >>= f) Q
Returns->>= (done a) f P Q p k = k a p
Returns->>= failed f P Q p k = absurd p

pub Returns-map {ℓ} :
    {A : Type ℓ} (m : Outcome A) (P Q : A → Type 0)
    → Returns m P
    → ((a : A) → P a → Q a)
    → Returns m Q
Returns-map (done a) P Q p k = k a p
Returns-map failed P Q p k = absurd p

-- If the code returns, then what it returns satisfies `P`.
abbrev pub Ensures {ℓ} : {A : Type ℓ} → Outcome A → (A → Type 0) → Type 0
Ensures (done a) P = P a
Ensures failed P = Unit {0}

pub Ensures->>= {ℓ κ} :
    {A : Type ℓ} {B : Type κ} (m : Outcome A) (f : A → Outcome B) (P : A → Type 0) (Q : B → Type 0)
    → Ensures m P
    → ((a : A) → P a → Ensures (f a) Q)
    → Ensures (m >>= f) Q
Ensures->>= (done a) f P Q p k = k a p
Ensures->>= failed f P Q p k = tt

pub Ensures-map {ℓ} :
    {A : Type ℓ} (m : Outcome A) (P Q : A → Type 0)
    → Ensures m P
    → ((a : A) → P a → Q a)
    → Ensures m Q
Ensures-map (done a) P Q p k = k a p
Ensures-map failed P Q p k = tt

pub Ensures-assert {ℓ} :
    {A : Type ℓ} (b : Bool) (k : Outcome A) (Q : A → Type 0)
    → (b ≡ true → Ensures k Q)
    → Ensures (assert b >> k) Q
Ensures-assert true k Q h = h refl
Ensures-assert false k Q h = tt

-- Code that returns, with all that it ensures.
pub Returns-Ensures {ℓ} :
    {A : Type ℓ} (m : Outcome A) (P Q : A → Type 0)
    → Returns m P
    → Ensures m Q
    → Returns m (λ a. P a × Q a)
Returns-Ensures (done a) P Q p q = (p, q)
Returns-Ensures failed P Q p q = absurd p

-- A check that holds, and a branch that is not taken.
pub Returns-assert {ℓ} :
    {A : Type ℓ} (b : Bool) (k : Outcome A) (Q : A → Type 0)
    → b ≡ true
    → Returns k Q
    → Returns (assert b >> k) Q
Returns-assert true k Q e h = h
Returns-assert false k Q e h = cc

pub Returns-else {ℓ} :
    {A : Type ℓ} (b : Bool) (m k : Outcome A) (Q : A → Type 0)
    → b ≡ false
    → Returns k Q
    → Returns (if b then m else k) Q
Returns-else true m k Q e h = cc
Returns-else false m k Q e h = h

-- Either branch returns.
pub Returns-if {ℓ} :
    {A : Type ℓ} (b : Bool) (m k : Outcome A) (Q : A → Type 0)
    → Returns m Q
    → Returns k Q
    → Returns (if b then m else k) Q
Returns-if true m k Q p q = p
Returns-if false m k Q p q = q

pub Returns-then {ℓ} :
    {A : Type ℓ} (b : Bool) (m k : Outcome A) (Q : A → Type 0)
    → b ≡ true
    → Returns m Q
    → Returns (if b then m else k) Q
Returns-then true m k Q e h = h
Returns-then false m k Q e h = cc

-- What is known of the result of code that returns.
pub Returns-result {ℓ} :
    {A : Type ℓ} (m : Outcome A) (P Q : A → Type 0)
    → Returns m P
    → ((a : A) → m ≡ done a → Q a)
    → Returns m Q
Returns-result (done a) P Q p k = k a refl
Returns-result failed P Q p k = absurd p

pub Ensures-then {ℓ} :
    {A : Type ℓ} (b : Bool) (m k : Outcome A) (Q : A → Type 0)
    → b ≡ true
    → Ensures m Q
    → Ensures (if b then m else k) Q
Ensures-then true m k Q e h = h
Ensures-then false m k Q e h = cc

pub Ensures-else {ℓ} :
    {A : Type ℓ} (b : Bool) (m k : Outcome A) (Q : A → Type 0)
    → b ≡ false
    → Ensures k Q
    → Ensures (if b then m else k) Q
Ensures-else true m k Q e h = cc
Ensures-else false m k Q e h = h
