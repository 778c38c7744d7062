-- ===== src/Mesi/Top/Recall.antt =====
-- `MESITopCC::sendInvalidates`: evictions and invalidations from above.
use cache_sim.Mesi.Top.Send.{send_inv-Purged, send_invx-Demoted, Purged, Demoted}
use cache_sim.Mesi.Top.Coherent.{Coherent}
use cache_sim.Mesi.Top.Count.{count-none, count-ext, any-none, any}
use cache_sim.Mesi.Top.Loop.{Obeys}
use cache_sim.Mesi.Types.{is_inv, is_fwd, is_owned, InvType, inv, invx, is_invalid, fwd}
use cache_sim.Base.{
  if◌then◌else◌, Bool-cases, Returns, Returns-map, ℕ, ◌≤◌, ◌<◌, ◌≡◌, sym, ◌∙◌, inl, inr, Bool, true,
  false, not, ◌&&◌, List, arith, ◌||◌,
}
use cache_sim.Mesi.Top.{Entry, send_invalidates, sole_owner, sharer, Children}

module _ {W : Type 0} (kids : Children W) (num : ℕ) (rtts : List ℕ) (dirty : ℕ → W → Bool)
    (obeys : Obeys kids num dirty) where
  -- The answer to an eviction or an invalidation from above.
  pub record Recalled (type : InvType) (cycle : ℕ) (e : Entry) (wb : Bool) (w : W)
      (r : ℕ × Entry × Bool × W) : Type 0 where
    pub later : cycle ≤ r.0
    pub coherent : Coherent kids num r.1 r.3
    pub recalled :
        (j : ℕ)
        → j < num
        → (if is_inv type then is_invalid else (λ s. not (is_owned s))) (kids.read_state j r.3)
          ≡ true
    pub flag :
        r.2 ≡ (wb || any (λ j. (is_inv type || sole_owner e) && sharer e j && dirty j w) num 0)

  Purged-Recalled :
      (e : Entry) (wb : Bool) (w : W) (cycle : ℕ) (r : ℕ × Entry × Bool × W)
      → Coherent kids num e w
      → Purged kids num rtts dirty obeys e cycle wb w r
      → Recalled inv cycle e wb w r
  Purged-Recalled e wb w cycle r co p = record {
    later = p.later;
    coherent = record {
      counts = record {
        small = co.counts.small;
        roomy = rw p.length_sharers co.counts.roomy;
        counted =
            p.no_count
            ∙ sym (count-none (sharer r.1) num 0 (λ j lo hi. p.none_left j (omega arith)));
      };
      alone = λ x. omega (arith, p.no_count);
      agree = λ j hj. ground (arith, p.none_left j hj, p.states j hj, co.agree j hj);
    };
    recalled = λ j hj. ground (arith, p.states j hj, co.agree j hj);
    flag = p.flag;
  }

  Demoted-Recalled :
      (e : Entry) (wb : Bool) (w : W) (cycle : ℕ) (r : ℕ × Entry × Bool × W)
      → Coherent kids num e w
      → sole_owner e ≡ true
      → Demoted kids num rtts dirty obeys e cycle wb w r
      → Recalled invx cycle e wb w r
  Demoted-Recalled e wb w cycle r co sole d = record {
    later = d.later;
    coherent = record {
      counts = record {
        small = co.counts.small;
        roomy = rw d.length_sharers co.counts.roomy;
        counted = omega (
          arith,
          d.num_sharers,
          co.counts.counted,
          count-ext (sharer r.1) (sharer e) num 0 (λ j lo. d.sharers j),
        );
      };
      alone = λ x. ground (arith, d.not_exclusive);
      agree = λ j hj. ground (arith, d.sharers j, d.not_exclusive, d.states j hj, co.agree j hj);
    };
    recalled = λ j hj. ground (arith, d.states j hj, co.agree j hj);
    flag = rw sole d.flag;
  }

  not_sole_invx :
      (e : Entry) (line_addr : ℕ) (wb : Bool) (w : W) (cycle src_id : ℕ)
      → Coherent kids num e w
      → sole_owner e ≡ false
      → Returns
          (send_invalidates kids num rtts e
            (record { line_addr = line_addr; type = invx; cycle = cycle; src_id = src_id })
            wb
            w)
          (Recalled invx cycle e wb w)
  unfolding send_invalidates
  not_sole_invx e line_addr wb w cycle src_id co free = rw free (record {
    later = omega arith;
    coherent = co;
    recalled = λ j hj. ground (arith, co.agree j hj);
    flag = ground (
      arith,
      any-none (λ j. (is_inv invx || sole_owner e) && sharer e j && dirty j w) num 0
          (λ j lo hi. ground (arith, free)),
    );
  })

  -- INV leaves the line in no cache below, and INVX in no cache below with exclusivity; the
  -- directory stays coherent, and the flag is raised exactly when a cache that had to give the line up,
  -- or its exclusivity, had dirty data.
  pub send_invalidates-Recalled :
      (e : Entry) (line_addr : ℕ) (type : InvType) (wb : Bool) (w : W) (cycle src_id : ℕ)
      → Coherent kids num e w
      → is_fwd type ≡ false
      → Returns
          (send_invalidates kids num rtts e
            (record { line_addr = line_addr; type = type; cycle = cycle; src_id = src_id })
            wb
            w)
          (Recalled type cycle e wb w)
  send_invalidates-Recalled e line_addr inv wb w cycle src_id co real =
      Returns-map _ (Purged kids num rtts dirty obeys e cycle wb w) (Recalled inv cycle e wb w)
        (send_inv-Purged kids num rtts dirty obeys e line_addr cycle src_id wb w co.counts
          λ j hj on. ground (arith, co.agree j hj))
        λ r p. Purged-Recalled e wb w cycle r co p
  send_invalidates-Recalled e line_addr fwd wb w cycle src_id co real = cc
  send_invalidates-Recalled e line_addr invx wb w cycle src_id co real =
      elim (Bool-cases (sole_owner e)) [
        | inl sole ↦
            Returns-map _ (Demoted kids num rtts dirty obeys e cycle wb w)
              (Recalled invx cycle e wb w)
              (send_invx-Demoted kids num rtts dirty obeys e line_addr cycle src_id wb w co.counts
                sole λ j hj on. ground (arith, co.agree j hj))
              λ r d. Demoted-Recalled e wb w cycle r co sole d
        | inr free ↦ not_sole_invx e line_addr wb w cycle src_id co free
      ]
