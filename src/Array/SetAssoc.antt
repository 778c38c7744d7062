-- ===== src/Array/SetAssoc.antt =====
-- `SetAssocArray` of src/cache_arrays.h and src/cache_arrays.cpp: the tags of a set-associative
-- cache. `hf->hash(0, ·)` is the argument `hash`, and the replacement policy the record `Policy`.
-- What `postinsert` does to the arrays of the compressor besides is not in this file.
pub mod Lookup
pub mod Insert
use Prim.Native.Nat.{bit_and}
use cache_sim.Repl.Lfu.{found}
use cache_sim.Compressor.Store.{num_lines}
use cache_sim.Base.{
  ℕ, ◌==◌, if◌then◌else◌, ◌>>◌, ◌>>=◌, done, Outcome, replicate, set, get_or, zero, suc, ◌-◌, ◌*◌,
  ◌/◌, Bool, Option, none, some, List, [], ◌∷◌, assert,
}

-- The virtual methods of `ReplPolicy` that an array calls; `R` is the state of the policy.
pub record Policy (R : Type 0) : Type 0 where
  pub on_update : R → ℕ → R
  pub on_replaced : R → ℕ → R
  pub rank_cands : R → List ℕ → R × ℕ

pub record SetAssoc : Type 0 where
  pub array : List ℕ
  pub num_sets : ℕ
  pub assoc : ℕ

-- The constructor: `numSets` must be a power of two.
unfoldable pub new_set_assoc : (ℕ → Bool) → ℕ → ℕ → Outcome SetAssoc
new_set_assoc is_pow2 num_lines assoc = do
  assert (is_pow2 (num_lines / assoc))
  done (record { array = replicate num_lines 0; num_sets = num_lines / assoc; assoc = assoc })

abbrev pub address_at : SetAssoc → ℕ → ℕ
address_at a id = get_or a.array id 0

-- `hf->hash(0, lineAddr) & setMask`
unfoldable pub set_of : (ℕ → ℕ) → SetAssoc → ℕ → ℕ
set_of hash a line_addr = bit_and (hash line_addr) (a.num_sets - 1)

abbrev pub first_of_set : (ℕ → ℕ) → SetAssoc → ℕ → ℕ
first_of_set hash a line_addr = set_of hash a line_addr * a.assoc

-- The loop of `lookup` over `n` ids from `id`; `none` is -1.
unfoldable pub find_way : SetAssoc → ℕ → ℕ → ℕ → Option ℕ
find_way a line_addr zero id = none
find_way a line_addr (suc n) id =
    let rest = find_way a line_addr n (suc id) in
    if address_at a id == line_addr then some id else rest

module _ {R : Type 0} (hash : ℕ → ℕ) (policy : Policy R) where
  -- `if (updateReplacement) rp->update(id, req)`, on a hit.
  abbrev pub tell_policy : Option ℕ → R → Bool → R
  tell_policy none r update_replacement = r
  tell_policy (some id) r update_replacement =
      if update_replacement then policy.on_update r id else r

  unfoldable pub lookup : SetAssoc → R → ℕ → Bool → Option ℕ × R
  lookup a r line_addr update_replacement =
      let found = find_way a line_addr a.assoc (first_of_set hash a line_addr) in
      (found, tell_policy found r update_replacement)

  -- `lookupL2` has the same body.
  unfoldable pub lookup_l2 : SetAssoc → R → ℕ → Bool → Option ℕ × R
  lookup_l2 a r line_addr update_replacement =
      let found = find_way a line_addr a.assoc (first_of_set hash a line_addr) in
      (found, tell_policy found r update_replacement)

  -- The candidates of a set, `SetAssocCands(first, first + assoc)`.
  unfoldable pub candidates : ℕ → ℕ → List ℕ
  candidates first zero = []
  candidates first (suc n) = first ∷ candidates (suc first) n

  -- The candidate, and the address that it holds.
  unfoldable pub preinsert : SetAssoc → R → ℕ → R × ℕ × ℕ
  preinsert a r line_addr =
      let (r', candidate) =
        policy.rank_cands r (candidates (first_of_set hash a line_addr) a.assoc) in
      (r', candidate, address_at a candidate)

  -- `preinsertL2` prints the candidate besides.
  unfoldable pub preinsert_l2 : SetAssoc → R → ℕ → R × ℕ × ℕ
  preinsert_l2 a r line_addr =
      let (r', candidate) =
        policy.rank_cands r (candidates (first_of_set hash a line_addr) a.assoc) in
      (r', candidate, address_at a candidate)

  unfoldable pub postinsert : SetAssoc → R → ℕ → ℕ → SetAssoc × R
  postinsert a r line_addr candidate = (
    record a { array = set a.array candidate line_addr },
    policy.on_update (policy.on_replaced r candidate) candidate,
  )
