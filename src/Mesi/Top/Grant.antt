-- ===== src/Mesi/Top/Grant.antt =====
-- `MESITopCC::processAccess` on GETS and GETX, and the theorem for all types of access.
use cache_sim.Mesi.Top.Send.{Counted}
use cache_sim.Mesi.Top.Coherent.{agrees, Coherent}
use cache_sim.Mesi.Top.Count.{count, count-none, count-le}
use cache_sim.Mesi.Top.Loop.{Obeys}
use cache_sim.Mesi.Top.Access.{count-set_sharer, sharer-set}
use cache_sim.Mesi.Types.{MesiState, invalid, is_owned, shared}
use cache_sim.Base.{
  length-set, get_or-set, length, ℕ, ◌+◌, ◌≤◌, ◌<◌, ◌≡◌, sym, ◌≢◌, Bool, true, false, List, arith,
}
use cache_sim.Mesi.Top.{Entry, Children, max_cache_children, add_sharer, set_sharer, sharer}

module _ {W : Type 0} (kids : Children W) (num : ℕ) (rtts : List ℕ) (dirty : ℕ → W → Bool)
    (obeys : Obeys kids num dirty) where
  -- A sharer that is added to an entry without an exclusive owner.
  pub shared-Coherent :
      (e : Entry) (child : ℕ) (w : W)
      → Counted num e
      → child < num
      → sharer e child ≡ false
      → ((j : ℕ) → j < num → agrees (sharer e j) false (kids.read_state j w) ≡ true)
      → Coherent kids num (add_sharer e child false) (kids.write_state child shared w)
  shared-Coherent e child w ct h off agree =
      let n : count (sharer (set_sharer e child true)) num 0 ≡ count (sharer e) num 0 + 1 =
        count-set_sharer kids num rtts dirty obeys e child ct h off in
      let le : count (sharer e) num 0 ≤ num = count-le (sharer e) num 0 in
      record {
        counts = record {
          small = ct.small;
          roomy = rw (length-set e.sharers child true) ct.roomy;
          counted = omega (arith, ct.counted, ct.small, n, le);
        };
        alone = λ x. cc;
        agree = λ j hj. ground (
          arith,
          agree j hj,
          sharer-set kids num rtts dirty obeys e child true j ct h,
          obeys.written child shared w h j,
        );
      }

  -- A sole owner that is added to an entry with no sharer.
  pub owner-Coherent :
      (e : Entry) (child : ℕ) (s : MesiState) (w : W)
      → num ≤ max_cache_children
      → num ≤ length e.sharers
      → child < num
      → is_owned s ≡ true
      → ((j : ℕ) → j < num → sharer e j ≡ false)
      → ((j : ℕ) → j < num → child ≢ j → kids.read_state j w ≡ invalid)
      → Coherent kids num
          (record (set_sharer e child true) { exclusive = true; num_sharers = 1 })
          (kids.write_state child s w)
  owner-Coherent e child s w small roomy h own none_left gone =
      let zero_count : count (sharer e) num 0 ≡ 0 =
        count-none (sharer e) num 0 (λ j lo hi. none_left j (omega arith)) in
      let ct : Counted num (record e { num_sharers = 0 }) = record {
        small = small;
        roomy = roomy;
        counted = sym zero_count;
      } in
      record {
        counts = record {
          small = small;
          roomy = rw (length-set e.sharers child true) roomy;
          counted = omega (
            arith,
            zero_count,
            count-set_sharer kids num rtts dirty obeys (record e { num_sharers = 0 }) child ct h
                (none_left child h),
          );
        };
        alone = λ x. omega arith;
        agree = λ j hj. ground (
          arith,
          own,
          none_left j hj,
          gone j hj,
          get_or-set e.sharers child j true false (omega arith),
          obeys.written child s w h j,
        );
      }
