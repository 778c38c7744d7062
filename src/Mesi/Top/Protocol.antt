-- ===== src/Mesi/Top/Protocol.antt =====
-- The directory protocol of `MESITopCC::processAccess`, for every type of access.
use cache_sim.Mesi.Top.Count.{any-none}
use cache_sim.Mesi.Top.Send.{empty_sharer}
use cache_sim.Mesi.Top.Coherent.{Coherent}
use cache_sim.Mesi.Top.Grant.{owner-Coherent}
use cache_sim.Mesi.Top.Directory.{puts-Served, getx-Served, putx-Served, gets_downgrade-Served}
use cache_sim.Mesi.Top.Loop.{Obeys}
use cache_sim.Mesi.Top.Access.{Served, dropped-Counted, sharer-set, is_asked}
use cache_sim.Mesi.Types.{getx, is_owned, gets, invalid, AccessType, puts, putx, exclusive, Flags}
use cache_sim.Mesi.Parent.{Fits}
use cache_sim.Base.{
  Bool-cases, Returns, ℕ, ◌<◌, ◌≡◌, refl, inl, inr, Bool, true, false, not, ◌&&◌, List, arith,
}
use cache_sim.Mesi.Top.{
  Entry, sharer, set_sharer, dec_sharers, top_gets, is_empty, Children, access_entry, top_getx,
  sole_owner,
}

module _ {W : Type 0} (kids : Children W) (num : ℕ) (rtts : List ℕ) (dirty : ℕ → W → Bool)
    (obeys : Obeys kids num dirty) where
  gets-Served :
      (e : Entry) (line_addr child : ℕ) (excl : Bool) (wb : Bool) (w : W) (cycle src_id : ℕ)
      (flags : Flags)
      → Coherent kids num e w
      → child < num
      → kids.read_state child w ≡ invalid
      → Returns
          (top_gets kids num rtts e line_addr child excl wb w cycle src_id flags)
          (Served kids num rtts dirty obeys gets flags child cycle e wb w)
  gets-Served e line_addr child excl wb w cycle src_id flags co h gone =
      elim (Bool-cases (is_empty e && excl && not flags.noexcl)) [
        | inl sole ↦
            let empty : e.num_sharers ≡ 0 = ground (arith, sole) in
            let none_left : (j : ℕ) → j < num → sharer e j ≡ false =
              λ j hj. empty_sharer kids num rtts dirty obeys e co.counts empty j hj in
            rw sole (record {
              later = omega arith;
              coherent =
                  owner-Coherent kids num rtts dirty obeys e child exclusive w co.counts.small
                    co.counts.roomy h refl none_left
                    λ j hj ne. ground (arith, co.agree j hj, none_left j hj);
              given = ground (arith, obeys.written child exclusive w h child);
              flag = ground (
                arith,
                any-none (λ j. is_asked gets e child j && dirty j w) num 0
                    (λ j lo hi. ground (arith, empty)),
              );
            })
        | inr not_sole ↦
            let off : sharer e child ≡ false = ground (arith, co.agree child h) in
            rw (not_sole, off)
              (gets_downgrade-Served kids num rtts dirty obeys e child line_addr wb w cycle src_id
                flags co h off)
      ]

  getx_any-Served :
      (e : Entry) (line_addr child : ℕ) (wb : Bool) (w : W) (cycle src_id : ℕ) (flags : Flags)
      → Coherent kids num e w
      → child < num
      → is_owned (kids.read_state child w) ≡ false
      → Returns
          (top_getx kids num rtts e line_addr child true wb w cycle src_id)
          (Served kids num rtts dirty obeys getx flags child cycle e wb w)
  getx_any-Served e line_addr child wb w cycle src_id flags co h not_own =
      elim (Bool-cases (sharer e child)) [
        | inl on ↦
            let free : sole_owner e ≡ false = ground (arith, co.agree child h) in
            rw (on, free)
              (getx-Served kids num rtts dirty obeys e (dec_sharers (set_sharer e child false))
                child line_addr wb w cycle src_id flags co h
                (dropped-Counted kids num rtts dirty obeys e child co.counts h on).0
                λ j hj. sharer-set kids num rtts dirty obeys e child false j co.counts h)
        | inr off ↦ rw off (
            getx-Served kids num rtts dirty obeys e e child line_addr wb w cycle src_id flags co h
              co.counts λ j hj. ground (arith, off))
      ]

  -- A request on a coherent entry that fits the state of the child's line, a GETX only while this
  -- cache is exclusive itself, over caches below that obey, trips no assertion; it is served as
  -- `Served` says: the directory stays coherent, the child has the state that it asked for, and the
  -- flag is raised exactly when a child that had to give the line up, or its exclusivity, had dirty
  -- data.
  pub access_entry-Served :
      (e : Entry) (line_addr : ℕ) (type : AccessType) (child : ℕ) (have_exclusive wb : Bool) (w : W)
      (cycle src_id : ℕ) (flags : Flags)
      → Coherent kids num e w
      → child < num
      → Fits type (kids.read_state child w)
      → (type ≡ getx → have_exclusive ≡ true)
      → Returns
          (access_entry kids num rtts e line_addr type child have_exclusive wb w cycle src_id flags)
          (Served kids num rtts dirty obeys type flags child cycle e wb w)
  unfolding access_entry
  access_entry-Served e line_addr gets child excl wb w cycle src_id flags co h fits has =
      gets-Served e line_addr child excl wb w cycle src_id flags co h fits
  access_entry-Served e line_addr getx child excl wb w cycle src_id flags co h fits has =
      rw (has refl) (getx_any-Served e line_addr child wb w cycle src_id flags co h (ground arith))
  access_entry-Served e line_addr puts child excl wb w cycle src_id flags co h fits has =
      puts-Served kids num rtts dirty obeys e child wb w cycle flags co h
        (ground (arith, co.agree child h))
  access_entry-Served e line_addr putx child excl wb w cycle src_id flags co h fits has =
      putx-Served kids num rtts dirty obeys e child wb w cycle flags co h fits
