-- ===== src/Array/SetAssoc/Insert.antt =====
-- `SetAssocArray::postinsert`: an inserted line is found, and every line but the evicted one is
-- found where it was.
use cache_sim.Array.SetAssoc.Lookup.{find_way-Finds, Finds, InSet}
use cache_sim.Base.{
  ◌==◌, get_or-set_ne, get_or-set, get_or-set_self, set, length, ℕ, zero, suc, ◌<◌, ◌≡◌, refl, sym,
  ap, subst, ◌∙◌, ◌≢◌, false, Option, none, some, arith, ℕ_discrete,
}
use cache_sim.Array.SetAssoc.{
  SetAssoc, address_at, set_of, first_of_set, find_way, postinsert, Policy, lookup,
}

-- The loop sees an array only through its tests.
find_way-cong :
    (a a' : SetAssoc) (x n id : ℕ)
    → ((k : ℕ) → (address_at a' k == x) ≡ (address_at a k == x))
    → find_way a' x n id ≡ find_way a x n id
unfolding find_way
find_way-cong a a' x zero id same = refl
find_way-cong a a' x (suc n) id same = rw (same id, find_way-cong a a' x n (suc id) same)

find_way-only :
    (a : SetAssoc) (x n first id : ℕ) (o : Option ℕ)
    → InSet first n id
    → address_at a id ≡ x
    → ((k : ℕ) → InSet first n k → address_at a k ≡ x → k ≡ id)
    → Finds a x n first o
    → o ≡ some id
find_way-only a x n first id none h e only f = absurd (f id h e)
find_way-only a x n first id (some k) h e only f = ap some (only k f.0 f.1)

-- A line that is not in its set, put in place of a candidate of that set, is found there afterwards.
-- Any other line but the one that the candidate held is found where it was, or still not at all.
pub lookup-postinsert :
    {R : Type 0} (hash : ℕ → ℕ) (policy : Policy R) (a : SetAssoc) (r : R)
    (line_addr candidate x : ℕ)
    → InSet (first_of_set hash a line_addr) a.assoc candidate
    → candidate < length a.array
    → (lookup hash policy a r line_addr false).0 ≡ none
    → x ≢ line_addr
    → x ≢ address_at a candidate
    → let (a', r') = postinsert hash policy a r line_addr candidate in
      ((lookup hash policy a' r' line_addr false).0 ≡ some candidate)
      × ((lookup hash policy a' r' x false).0 ≡ (lookup hash policy a r x false).0)
unfolding lookup postinsert set_of
lookup-postinsert hash policy a r line_addr candidate x in_set in_array absent new old = (
  find_way-only a' line_addr a.assoc first candidate _ in_set
      (get_or-set_self a.array candidate line_addr 0 in_array)
      (λ k in_k hit. elim (ℕ_discrete candidate k) [
        | yes e ↦ sym e
        | no ne ↦
            absurd (gone k in_k (sym (get_or-set_ne a.array candidate k line_addr 0 ne) ∙ hit))
      ])
      (find_way-Finds a' line_addr a.assoc first),
  find_way-cong a a' x a.assoc _
      (λ k. ground (arith, get_or-set a.array candidate k line_addr 0 in_array)),
)
  where
    first : ℕ
    first = first_of_set hash a line_addr

    a' : SetAssoc
    a' = record a { array = set a.array candidate line_addr }

    gone : (k : ℕ) → InSet first a.assoc k → address_at a k ≢ line_addr
    gone = subst (Finds a line_addr a.assoc first) absent (find_way-Finds a line_addr a.assoc first)
