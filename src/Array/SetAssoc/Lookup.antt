-- ===== src/Array/SetAssoc/Lookup.antt =====
-- `SetAssocArray::lookup` finds a line in its set, and nowhere else.
use cache_sim.Base.{
  ==_iff, Bool-cases, ◌==◌, ℕ, zero, suc, ◌+◌, ◌≤◌, ◌<◌, ◌≡◌, ◌≢◌, inl, inr, false, Option, none,
  some, arith, ℕ_discrete, refl, true,
}
use cache_sim.Array.SetAssoc.{
  SetAssoc, address_at, first_of_set, find_way, lookup, Policy, tell_policy,
}

-- The ids from `first` on, as many as there are ways.
abbrev pub InSet : ℕ → ℕ → ℕ → Type 0
InSet first n id = (first ≤ id) × (id < first + n)

-- What the loop answers: the first id of the range with the address, or none if none has it.
abbrev pub Finds : SetAssoc → ℕ → ℕ → ℕ → Option ℕ → Type 0
Finds a line_addr n first none = (id : ℕ) → InSet first n id → address_at a id ≢ line_addr
Finds a line_addr n first (some id) =
    InSet first n id
    × (address_at a id ≡ line_addr)
    × ((k : ℕ) → first ≤ k → k < id → address_at a k ≢ line_addr)

extend-Finds :
    (a : SetAssoc) (line_addr n first : ℕ) (o : Option ℕ)
    → address_at a first ≢ line_addr
    → Finds a line_addr n (suc first) o
    → Finds a line_addr (suc n) first o
extend-Finds a line_addr n first none miss f = λ id h. elim (ℕ_discrete first id) [
  | yes e ↦ rw (← e) miss
  | no ne ↦ f id (omega arith, omega arith)
]
extend-Finds a line_addr n first (some id) miss f = (
  (omega arith, omega arith),
  f.1,
  (λ k lo hi. elim (ℕ_discrete first k) [ yes e ↦ rw (← e) miss | no ne ↦ f.2 k (omega arith) hi ]),
)

pub find_way-Finds :
    (a : SetAssoc) (line_addr n first : ℕ)
    → Finds a line_addr n first (find_way a line_addr n first)
unfolding find_way
find_way-Finds a line_addr zero first = λ id h. absurd (omega arith)
find_way-Finds a line_addr (suc n) first = elim (Bool-cases (address_at a first == line_addr)) [
  | inl hit ↦ rw hit (
    (omega arith, omega arith),
    (==_iff (address_at a first) line_addr).0 hit,
    (λ k lo hi. absurd (omega arith)),
  )
  | inr miss ↦ rw miss (
      extend-Finds a line_addr n first _ (λ e. ground arith)
        (find_way-Finds a line_addr n (suc first)))
]

-- `lookup` returns the first id of the line's set that holds its address, and -1 exactly when no id
-- of the set does. Without `updateReplacement` the policy stays as it was.
pub lookup-Finds :
    {R : Type 0} (hash : ℕ → ℕ) (policy : Policy R) (a : SetAssoc) (r : R) (line_addr : ℕ)
    → Finds a line_addr a.assoc
        (first_of_set hash a line_addr)
        (lookup hash policy a r line_addr true).0
      × (lookup hash policy a r line_addr false ≡ ((lookup hash policy a r line_addr true).0, r))
unfolding lookup
lookup-Finds {R} hash policy a r line_addr =
    (find_way-Finds a line_addr a.assoc _, untold (find_way a line_addr a.assoc _))
  where
    untold : (o : Option ℕ) → ◌≡◌ {A = Option ℕ × R} (o, tell_policy hash policy o r false) (o, r)
    untold none = refl
    untold (some id) = refl
