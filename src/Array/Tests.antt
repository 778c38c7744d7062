-- ===== src/Array/Tests.antt =====
-- An array of two sets with two ways each, under a policy that always picks the first candidate.
use cache_sim.Base.{ℕ, ◌≡◌, refl, true, false, none, some, List, [], ◌∷◌, arith}
use cache_sim.Array.SetAssoc.Insert.{lookup-postinsert}
use cache_sim.Array.SetAssoc.Lookup.{Finds, InSet, lookup-Finds}
use cache_sim.Array.SetAssoc.{find_way, SetAssoc, Policy, lookup, first_of_set, set_of, postinsert}

abbrev first_cand : List ℕ → ℕ
first_cand [] = 0
first_cand (c ∷ cs) = c

abbrev first_policy : Policy (Unit {0})
first_policy = record {
  on_update = λ r id. r;
  on_replaced = λ r id. r;
  rank_cands = λ r cs. (r, first_cand cs);
}

-- Lines 10 and 12 are in set 0, and line 11 is in set 1.
abbrev array : SetAssoc
array = record { array = 10 ∷ 12 ∷ 11 ∷ 0 ∷ []; num_sets = 2; assoc = 2 }

abbrev identity : ℕ → ℕ
identity x = x

array_lookups :
    ((lookup identity first_policy array tt 12 true).0 ≡ some 1)
    × ((lookup identity first_policy array tt 14 true).0 ≡ none)
unfolding lookup find_way set_of
array_lookups = (refl, refl)

array_missing : (lookup identity first_policy array tt 14 false).0 ≡ none
unfolding lookup find_way set_of
array_missing = refl

zero-InSet : InSet (first_of_set identity array 14) 2 0
unfolding set_of
zero-InSet = (omega arith, omega arith)

lookup-Finds_example :
    Finds array 12 2
      (first_of_set identity array 12)
      (lookup identity first_policy array tt 12 true).0
    × (lookup identity first_policy array tt 12 false
        ≡ ((lookup identity first_policy array tt 12 true).0, tt))
lookup-Finds_example = lookup-Finds identity first_policy array tt 12

-- Line 14 takes the place of line 10, and line 12 stays.
lookup-postinsert_example :
    let (a', r') = postinsert identity first_policy array tt 14 0 in
    ((lookup identity first_policy a' r' 14 false).0 ≡ some 0)
    × ((lookup identity first_policy a' r' 12 false).0
        ≡ (lookup identity first_policy array tt 12 false).0)
lookup-postinsert_example =
    lookup-postinsert identity first_policy array tt 14 0 12 zero-InSet (omega arith) array_missing
      (λ e. cc) (λ e. cc)
