-- ===== src/Mesi/Top/Access.antt =====
-- `MESITopCC::processAccess` keeps the directory coherent, on each type of access.
use cache_sim.Mesi.Top.Coherent.{Coherent}
use cache_sim.Mesi.Top.Count.{count_unique, count, count-le, count-gain, any}
use cache_sim.Mesi.Top.Loop.{Obeys}
use cache_sim.Mesi.Top.Send.{Counted}
use cache_sim.Mesi.Types.{
  modified, exclusive, putx, MesiState, Flags, getx, gets, invalid, is_clean, AccessType, puts,
}
use cache_sim.Base.{
  if◌then◌else◌, Bool-cases, ◌==◌, get_or-set, length-set, ℕ, ◌+◌, ◌≤◌, ◌<◌, ◌≡◌, ◌≢◌, inl, inr,
  Bool, true, false, List, arith, dec_lt, ℕ_discrete, not, ◌&&◌, ◌||◌,
}
use cache_sim.Mesi.Top.{Entry, Children, set_sharer, sharer, dec_sharers, sole_owner}

-- The state that the child is left in.
abbrev pub Given : AccessType → Flags → MesiState → Type 0
Given gets flags s = is_clean s ≡ true
Given getx flags s = s ≡ modified
Given puts flags s = s ≡ invalid
Given putx flags s = s ≡ (if flags.putx_keepexcl then exclusive else invalid)

-- The children that lose the line or its exclusivity: on a GETX every other sharer, on a GETS the
-- exclusive owner, and on a PUT none.
abbrev pub is_asked : AccessType → Entry → ℕ → ℕ → Bool
is_asked gets e child j = sole_owner e && sharer e j
is_asked getx e child j = not (child == j) && sharer e j
is_asked puts e child j = false
is_asked putx e child j = false

module _ {W : Type 0} (kids : Children W) (num : ℕ) (rtts : List ℕ) (dirty : ℕ → W → Bool)
    (obeys : Obeys kids num dirty) where
  -- A correct answer to the child: the cycle is no earlier, the directory is coherent, the child has
  -- what it asked for, and the flag is raised exactly when a child that had to give the line up, or
  -- its exclusivity, had dirty data.
  pub record Served (type : AccessType) (flags : Flags) (child cycle : ℕ) (e : Entry) (wb : Bool)
      (w : W) (r : ℕ × Entry × Bool × W) : Type 0 where
    pub later : cycle ≤ r.0
    pub coherent : Coherent kids num r.1 r.3
    pub given : Given type flags (kids.read_state child r.3)
    pub flag : r.2 ≡ (wb || any (λ j. is_asked type e child j && dirty j w) num 0)

  -- The entry with one bit changed.
  pub sharer-set :
      (e : Entry) (c : ℕ) (v : Bool) (j : ℕ)
      → Counted num e
      → c < num
      → sharer (set_sharer e c v) j ≡ (if c == j then v else sharer e j)
  sharer-set e c v j ct h = get_or-set e.sharers c j v false (omega (arith, ct.roomy))

  pub count-set_sharer :
      (e : Entry) (c : ℕ)
      → Counted num e
      → c < num
      → sharer e c ≡ false
      → count (sharer (set_sharer e c true)) num 0 ≡ count (sharer e) num 0 + 1
  count-set_sharer e c ct h off =
      count-gain (sharer e) (sharer (set_sharer e c true)) c num 0 (omega arith) (omega arith) off
        (ground (arith, sharer-set e c true c ct h))
        λ j ne. ground (arith, sharer-set e c true j ct h)

  count-clear_sharer :
      (e : Entry) (c : ℕ)
      → Counted num e
      → c < num
      → sharer e c ≡ true
      → count (sharer e) num 0 ≡ count (sharer (set_sharer e c false)) num 0 + 1
  count-clear_sharer e c ct h on =
      count-gain (sharer (set_sharer e c false)) (sharer e) c num 0 (omega arith) (omega arith)
        (ground (arith, sharer-set e c false c ct h)) on
        λ j ne. ground (arith, sharer-set e c false j ct h)

  -- Two sharers count as two.
  two_sharers :
      (e : Entry) (i j : ℕ)
      → Counted num e
      → i < num
      → j < num
      → i ≢ j
      → sharer e i ≡ true
      → sharer e j ≡ true
      → 1 < e.num_sharers
  two_sharers e i j ct hi hj ne on_i on_j = elim (dec_lt 1 e.num_sharers) [
    | yes p ↦ p
    | no p ↦ absurd (
        ne (
          count_unique (sharer e) i j num 0 (omega (arith, ct.counted)) (omega arith) (omega arith)
            (omega arith) (omega arith) on_i on_j))
  ]

  -- The entry without the sharer `c`.
  pub dropped-Counted :
      (e : Entry) (c : ℕ)
      → Counted num e
      → c < num
      → sharer e c ≡ true
      → Counted num (dec_sharers (set_sharer e c false))
        × ((dec_sharers (set_sharer e c false)).num_sharers + 1 ≡ e.num_sharers)
  dropped-Counted e c ct h on =
      let n : count (sharer e) num 0 ≡ count (sharer (set_sharer e c false)) num 0 + 1 =
        count-clear_sharer e c ct h on in
      let le : count (sharer e) num 0 ≤ num = count-le (sharer e) num 0 in
      (
        record {
          small = ct.small;
          roomy = rw (length-set e.sharers c false) ct.roomy;
          counted = omega (arith, ct.counted, ct.small, n, le);
        },
        omega (arith, ct.counted, ct.small, n, le),
      )

  pub drop_sharer-Coherent :
      (e : Entry) (child : ℕ) (w : W)
      → Coherent kids num e w
      → child < num
      → sharer e child ≡ true
      → Coherent kids num
          (dec_sharers (set_sharer e child false))
          (kids.write_state child invalid w)
  drop_sharer-Coherent e child w co h on = record {
    counts = less.0;
    alone = λ x. omega (arith, less.1, co.alone x);
    agree = λ j hj. elim (ℕ_discrete child j) [
      | yes same ↦
          ground (arith, sharer-set e child false j co.counts h, obeys.written child invalid w h j)
      | no other ↦ elim (Bool-cases (sharer e j)) [
        | inl on_j ↦
            let two : 1 < e.num_sharers = two_sharers e child j co.counts h hj other on on_j in
            ground (
              arith,
              two,
              co.alone,
              co.agree j hj,
              sharer-set e child false j co.counts h,
              obeys.written child invalid w h j,
            )
        | inr off ↦ ground (
          arith,
          co.agree j hj,
          sharer-set e child false j co.counts h,
          obeys.written child invalid w h j,
        )
      ]
    ];
  }
    where
      less :
          Counted num (dec_sharers (set_sharer e child false))
          × ((dec_sharers (set_sharer e child false)).num_sharers + 1 ≡ e.num_sharers)
      less = dropped-Counted e child co.counts h on
