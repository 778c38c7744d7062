-- ===== src/Mesi/Top/Coherent.antt =====
-- The invariant that ties a directory entry to the states of the caches below, and what it means:
-- one writer, or many readers.
use cache_sim.Mesi.Top.Send.{Counted}
use cache_sim.Mesi.Top.Count.{count, count_unique}
use cache_sim.Mesi.Bottom.Serve.{invalid_of}
use cache_sim.Mesi.Types.{invalid, is_owned, MesiState, is_shared, is_invalid}
use cache_sim.Base.{Bool-cases, ℕ, ◌≤◌, ◌<◌, ◌≡◌, ◌≢◌, inl, inr, Bool, true, false, not, arith}
use cache_sim.Mesi.Top.{Entry, sole_owner, sharer, Children}

-- What the state of a child must be: I if it is no sharer, E or M if it is the exclusive one, and
-- S otherwise.
abbrev pub agrees : Bool → Bool → MesiState → Bool
agrees false sole s = is_invalid s
agrees true true s = is_owned s
agrees true false s = is_shared s

module _ {W : Type 0} (kids : Children W) (num : ℕ) where
  pub record Coherent (e : Entry) (w : W) : Type 0 where
    pub counts : Counted num e
    pub alone : e.exclusive ≡ true → e.num_sharers ≤ 1
    pub agree : (j : ℕ) → j < num → agrees (sharer e j) (sole_owner e) (kids.read_state j w) ≡ true

  -- A child in E or M is the only one that holds the line.
  pub single_writer :
      (e : Entry) (w : W) (i j : ℕ)
      → Coherent e w
      → i < num
      → j < num
      → i ≢ j
      → is_owned (kids.read_state i w) ≡ true
      → kids.read_state j w ≡ invalid
  single_writer e w i j co hi hj ne own = elim (Bool-cases (sharer e j)) [
    | inl on_j ↦
        let on_i : sharer e i ≡ true = ground (arith, co.agree i hi) in
        let sole : sole_owner e ≡ true = ground (arith, co.agree i hi, on_i) in
        let one : count (sharer e) num 0 ≤ 1 = ground (arith, co.counts.counted, sole) in
        absurd (
          ne (
            count_unique (sharer e) i j num 0 one (omega arith) (omega arith) (omega arith)
              (omega arith) on_i on_j))
    | inr off ↦ invalid_of (kids.read_state j w) (ground (arith, co.agree j hj))
  ]

  -- The directory knows the state of every child up to E or M: I, S, or one of these.
  pub tracked_valid :
      (e : Entry) (w : W) (j : ℕ)
      → Coherent e w
      → j < num
      → sharer e j ≡ not (is_invalid (kids.read_state j w))
  tracked_valid e w j co h = ground (arith, co.agree j h)
