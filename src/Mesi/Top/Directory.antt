-- ===== src/Mesi/Top/Directory.antt =====
-- `MESITopCC::processAccess`: every request that fits the child's line is served, and the directory
-- stays coherent.
use cache_sim.Mesi.Top.Grant.{owner-Coherent, shared-Coherent}
use cache_sim.Mesi.Top.Send.{Demoted, Purged, send_invx-Demoted, Counted, send_inv-Purged}
use cache_sim.Mesi.Top.Count.{count-ext, any-ext, any-none, any}
use cache_sim.Mesi.Top.Coherent.{Coherent, agrees}
use cache_sim.Mesi.Top.Loop.{Obeys}
use cache_sim.Mesi.Top.Access.{drop_sharer-Coherent, Served, is_asked}
use cache_sim.Mesi.Types.{
  Flags, invalid, is_owned, putx, puts, MesiState, modified, is_invalid, exclusive, inv, invx,
  shared, getx, gets,
}
use cache_sim.Base.{
  Bool-cases, Returns, ℕ, ◌<◌, ◌≡◌, inl, inr, Bool, true, not, List, arith, if◌then◌else◌, ◌==◌,
  done, ◌>>◌, assert, Returns->>=, ◌≤◌, refl, ◌∙◌, false, ◌&&◌, ◌>>=◌, ap, ◌||◌,
}
use cache_sim.Mesi.Top.{
  Entry, sharer, sole_owner, top_putx, Children, drop_sharer, send_invalidates, add_sharer,
}

module _ {W : Type 0} (kids : Children W) (num : ℕ) (rtts : List ℕ) (dirty : ℕ → W → Bool)
    (obeys : Obeys kids num dirty) where
  -- Which child is a sharer, from its state.
  sharer_of_state :
      (e : Entry) (w : W) (j : ℕ) (s : MesiState)
      → Coherent kids num e w
      → j < num
      → kids.read_state j w ≡ s
      → sharer e j ≡ not (is_invalid s)
  sharer_of_state e w j s co h eq = ground (arith, co.agree j h)

  pub owner_is_sharer :
      (e : Entry) (w : W) (j : ℕ)
      → Coherent kids num e w
      → j < num
      → is_owned (kids.read_state j w) ≡ true
      → (sharer e j ≡ true) × (sole_owner e ≡ true)
  owner_is_sharer e w j co h own = (ground (arith, co.agree j h), ground (arith, co.agree j h))

  pub puts-Served :
      (e : Entry) (child : ℕ) (wb : Bool) (w : W) (cycle : ℕ) (flags : Flags)
      → Coherent kids num e w
      → child < num
      → sharer e child ≡ true
      → Returns
          (drop_sharer kids num rtts e child wb w cycle)
          (Served kids num rtts dirty obeys puts flags child cycle e wb w)
  puts-Served e child wb w cycle flags co h on = rw on (record {
    later = omega arith;
    coherent = drop_sharer-Coherent kids num rtts dirty obeys e child w co h on;
    given = ground (arith, obeys.written child invalid w h child);
    flag = ground (arith, any-none (λ j. false) num 0 (λ j lo hi. refl));
  })

  pub putx-Served :
      (e : Entry) (child : ℕ) (wb : Bool) (w : W) (cycle : ℕ) (flags : Flags)
      → Coherent kids num e w
      → child < num
      → kids.read_state child w ≡ modified
      → Returns
          (top_putx kids num rtts e child wb w cycle flags)
          (Served kids num rtts dirty obeys putx flags child cycle e wb w)
  putx-Served e child wb w cycle flags co h dirty_line =
      let own : is_owned (kids.read_state child w) ≡ true = rw dirty_line in
      let (on, sole) = owner_is_sharer e w child co h own in
      elim (Bool-cases flags.putx_keepexcl) [
        | inl keep ↦
            rw (sole, keep, on, dirty_line)
              (record {
                later = omega arith;
                coherent = record {
                  counts = co.counts;
                  alone = co.alone;
                  agree = λ j hj.
                      ground (arith, co.agree j hj, sole, on, obeys.written child exclusive w h j);
                };
                given = ground (arith, keep, obeys.written child exclusive w h child);
                flag = ground (arith, any-none (λ j. false) num 0 (λ j lo hi. refl));
              })
        | inr gone ↦
            rw (sole, gone, on)
              (record {
                later = omega arith;
                coherent = drop_sharer-Coherent kids num rtts dirty obeys e child w co h on;
                given = ground (arith, gone, obeys.written child invalid w h child);
                flag = ground (arith, any-none (λ j. false) num 0 (λ j lo hi. refl));
              })
      ]

  -- A GETX after the child itself is out of the entry `e₁`.
  pub getx-Served :
      (e e₁ : Entry) (child line_addr : ℕ) (wb : Bool) (w : W) (cycle src_id : ℕ) (flags : Flags)
      → Coherent kids num e w
      → child < num
      → Counted num e₁
      → ((j : ℕ) → j < num → sharer e₁ j ≡ (if child == j then false else sharer e j))
      → Returns
          (send_invalidates kids num rtts e₁
              (record { line_addr = line_addr; type = inv; cycle = cycle; src_id = src_id })
              wb
              w
            >>= λ r.
                assert ((add_sharer r.1 child true).num_sharers == 1)
                >> done (r.0, add_sharer r.1 child true, r.2, kids.write_state child modified r.3))
          (Served kids num rtts dirty obeys getx flags child cycle e wb w)
  getx-Served e e₁ child line_addr wb w cycle src_id flags co h ct out =
      Returns->>= _ _ (Purged kids num rtts dirty obeys e₁ cycle wb w)
        (Served kids num rtts dirty obeys getx flags child cycle e wb w)
        (send_inv-Purged kids num rtts dirty obeys e₁ line_addr cycle src_id wb w ct
          λ j hj on. ground (arith, co.agree j hj, out j hj))
        λ r p. rw p.no_count (record {
          later = p.later;
          coherent =
              owner-Coherent kids num rtts dirty obeys r.1 child modified r.3 ct.small
                (rw p.length_sharers ct.roomy) h refl p.none_left
                λ j hj ne. ground (arith, p.states j hj, out j hj, co.agree j hj);
          given = ground (arith, obeys.written child modified r.3 h child);
          flag =
              p.flag
              ∙ ap (λ k. wb || k)
                  (any-ext (λ j. sharer e₁ j && dirty j w)
                    (λ j. is_asked getx e child j && dirty j w) num 0
                    λ j lo hi. ground (arith, out j (omega arith)));
        })

  -- A GETS that is granted in S: `r` is what the downgrade, if any, left.
  gets_shared-Served :
      (e : Entry) (child : ℕ) (wb : Bool) (w : W) (cycle : ℕ) (flags : Flags)
      (r : ℕ × Entry × Bool × W)
      → child < num
      → cycle ≤ r.0
      → Counted num r.1
      → sole_owner r.1 ≡ false
      → sharer r.1 child ≡ false
      → ((j : ℕ) → j < num → agrees (sharer r.1 j) false (kids.read_state j r.3) ≡ true)
      → r.2 ≡ (wb || any (λ j. is_asked gets e child j && dirty j w) num 0)
      → Returns
          (assert (not (sole_owner r.1))
            >> done (r.0, add_sharer r.1 child false, r.2, kids.write_state child shared r.3))
          (Served kids num rtts dirty obeys gets flags child cycle e wb w)
  gets_shared-Served e child wb w cycle flags r h le ct free off agree flag = rw free (record {
    later = le;
    coherent = shared-Coherent kids num rtts dirty obeys r.1 child r.3 ct h off agree;
    given = ground (arith, obeys.written child shared r.3 h child);
    flag = flag;
  })

  -- A GETS that cannot be granted in E.
  pub gets_downgrade-Served :
      (e : Entry) (child line_addr : ℕ) (wb : Bool) (w : W) (cycle src_id : ℕ) (flags : Flags)
      → Coherent kids num e w
      → child < num
      → sharer e child ≡ false
      → Returns
          ((if sole_owner e
              then send_invalidates kids num rtts e
                  (record { line_addr = line_addr; type = invx; cycle = cycle; src_id = src_id })
                  wb
                  w
              else done (cycle, e, wb, w))
            >>= λ r.
                assert (not (sole_owner r.1))
                >> done (r.0, add_sharer r.1 child false, r.2, kids.write_state child shared r.3))
          (Served kids num rtts dirty obeys gets flags child cycle e wb w)
  gets_downgrade-Served e child line_addr wb w cycle src_id flags co h off =
      elim (Bool-cases (sole_owner e)) [
        | inl sole ↦ rw sole (
            Returns->>= _ _ (Demoted kids num rtts dirty obeys e cycle wb w)
              (Served kids num rtts dirty obeys gets flags child cycle e wb w)
              (send_invx-Demoted kids num rtts dirty obeys e line_addr cycle src_id wb w co.counts
                sole λ j hj on. ground (arith, co.agree j hj))
              λ r d.
                gets_shared-Served e child wb w cycle flags r h d.later
                  (record {
                    small = co.counts.small;
                    roomy = rw d.length_sharers co.counts.roomy;
                    counted = omega (
                      arith,
                      d.num_sharers,
                      co.counts.counted,
                      count-ext (sharer r.1) (sharer e) num 0 (λ j lo. d.sharers j),
                    );
                  })
                  (ground (arith, d.not_exclusive)) (d.sharers child ∙ off)
                  (λ j hj. ground (arith, d.sharers j, d.states j hj, co.agree j hj))
                  (d.flag
                    ∙ ap (λ k. wb || k)
                        (any-ext (λ j. sharer e j && dirty j w)
                          (λ j. is_asked gets e child j && dirty j w) num 0
                          λ j lo hi. ground (arith, sole))))
        | inr free ↦ rw free (
            gets_shared-Served e child wb w cycle flags (cycle, e, wb, w) h (omega arith) co.counts
              free off (λ j hj. ground (arith, co.agree j hj))
              (ground (
                arith,
                any-none (λ j. is_asked gets e child j && dirty j w) num 0
                    (λ j lo hi. ground (arith, free)),
              )))
      ]
