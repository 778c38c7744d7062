-- ===== src/Mesi/Top/Send.antt =====
-- `MESITopCC::sendInvalidates` over a whole entry: INV empties it, and INVX takes exclusivity away.
use cache_sim.Mesi.Top.Count.{any, count-pos, count, any-none}
use cache_sim.Mesi.Top.Loop.{Obeys, Swept, send_loop-Swept}
use cache_sim.Mesi.Types.{invalid, shared, invx, is_invalid, inv, is_owned, InvType}
use cache_sim.Base.{
  if◌then◌else◌, ◌==◌, Bool-cases, Returns, length, ℕ, ◌≤◌, ◌<◌, ◌≡◌, inl, inr, Bool, true, false,
  ◌&&◌, ◌||◌, List, arith, ==_iff, ==-ne, Returns->>=, refl, sym, ◌∙◌,
}
use cache_sim.Mesi.Top.{
  Entry, Sweep, sharer, Children, max_cache_children, settle_entry, send_invalidates, sole_owner,
}

-- The entry counts the sharers among the first `num` children.
pub record Counted (num : ℕ) (e : Entry) : Type 0 where
  pub small : num ≤ max_cache_children
  pub roomy : num ≤ length e.sharers
  pub counted : e.num_sharers ≡ count (sharer e) num 0

module _ {W : Type 0} (kids : Children W) (num : ℕ) (rtts : List ℕ) (dirty : ℕ → W → Bool)
    (obeys : Obeys kids num dirty) where
  -- Some sharer has dirty data.
  abbrev pub any_dirty : Entry → W → Bool
  any_dirty e w = any (λ j. sharer e j && dirty j w) num 0

  -- After INV: no sharer is left, and the old sharers are in I.
  pub record Purged (e : Entry) (cycle : ℕ) (wb : Bool) (w : W) (r : ℕ × Entry × Bool × W)
      : Type 0 where
    pub later : cycle ≤ r.0
    pub none_left : (j : ℕ) → j < num → sharer r.1 j ≡ false
    pub no_count : r.1.num_sharers ≡ 0
    pub length_sharers : length r.1.sharers ≡ length e.sharers
    pub flag : r.2 ≡ (wb || any_dirty e w)
    pub states :
        (j : ℕ)
        → j < num
        → kids.read_state j r.3 ≡ (if sharer e j then invalid else kids.read_state j w)

  -- After INVX: the sharers stay, without exclusivity.
  pub record Demoted (e : Entry) (cycle : ℕ) (wb : Bool) (w : W) (r : ℕ × Entry × Bool × W)
      : Type 0 where
    pub later : cycle ≤ r.0
    pub sharers : (j : ℕ) → sharer r.1 j ≡ sharer e j
    pub num_sharers : r.1.num_sharers ≡ e.num_sharers
    pub not_exclusive : r.1.exclusive ≡ false
    pub length_sharers : length r.1.sharers ≡ length e.sharers
    pub flag : r.2 ≡ (wb || any_dirty e w)
    pub states :
        (j : ℕ)
        → j < num
        → kids.read_state j r.3 ≡ (if sharer e j then shared else kids.read_state j w)

  abbrev start : Entry → ℕ → Bool → W → Sweep W
  start e cycle wb w = record {
    entry = e;
    writeback = wb;
    world = w;
    max_cycle = cycle;
    sent_invs = 0;
  }

  pub empty_sharer :
      (e : Entry) → Counted num e → e.num_sharers ≡ 0 → (j : ℕ) → j < num → sharer e j ≡ false
  empty_sharer e ct empty j h = elim (Bool-cases (sharer e j)) [
    | inl on ↦
        absurd
          (omega (arith, ct.counted, count-pos (sharer e) j num 0 (omega arith) (omega arith) on))
    | inr off ↦ off
  ]

  -- The assertion on the number of invalidations, after the loop.
  all_sent :
      (e : Entry) (type : InvType) (cycle : ℕ) (wb : Bool) (w : W) (s : Sweep W)
      → Counted num e
      → Swept kids dirty type num 0 (start e cycle wb w) s
      → s.sent_invs ≡ s.entry.num_sharers
  all_sent e type cycle wb w s ct sw = omega (arith, sw.sent, sw.num_sharers, ct.counted)

  pub send_inv-Purged :
      (e : Entry) (line_addr cycle src_id : ℕ) (wb : Bool) (w : W)
      → Counted num e
      → ((j : ℕ) → j < num → sharer e j ≡ true → is_invalid (kids.read_state j w) ≡ false)
      → Returns
          (send_invalidates kids num rtts e
            (record { line_addr = line_addr; type = inv; cycle = cycle; src_id = src_id })
            wb
            w)
          (Purged e cycle wb w)
  unfolding send_invalidates settle_entry
  send_inv-Purged e line_addr cycle src_id wb w ct valid = elim (Bool-cases (e.num_sharers == 0)) [
    | inl empty ↦
        let all_off : (j : ℕ) → j < num → sharer e j ≡ false =
          empty_sharer e ct ((==_iff e.num_sharers 0).0 empty) in
        rw empty (record {
          later = omega arith;
          none_left = all_off;
          no_count = (==_iff e.num_sharers 0).0 empty;
          length_sharers = refl;
          flag = ground (
            arith,
            any-none (λ j. sharer e j && dirty j w) num 0
                (λ j lo hi. ground (arith, all_off j (omega arith))),
          );
          states = λ j h. ground (arith, all_off j h);
        })
    | inr some_left ↦ rw some_left (
        Returns->>= _ _ (Swept kids dirty inv num 0 (start e cycle wb w)) (Purged e cycle wb w)
          (send_loop-Swept kids num rtts dirty obeys _ num 0 (start e cycle wb w) (omega arith) refl
            (λ j lo hi. valid j (omega arith)))
          λ s sw.
            rw ((==_iff s.sent_invs s.entry.num_sharers).1 (all_sent e inv cycle wb w s ct sw))
              (record {
                later = sw.later;
                none_left = λ j h. ground (arith, sw.sharers j);
                no_count = refl;
                length_sharers = sw.length_sharers;
                flag = sw.flag;
                states = λ j h. ground (arith, sw.states j);
              }))
  ]

  pub send_invx-Demoted :
      (e : Entry) (line_addr cycle src_id : ℕ) (wb : Bool) (w : W)
      → Counted num e
      → sole_owner e ≡ true
      → ((j : ℕ) → j < num → sharer e j ≡ true → is_owned (kids.read_state j w) ≡ true)
      → Returns
          (send_invalidates kids num rtts e
            (record { line_addr = line_addr; type = invx; cycle = cycle; src_id = src_id })
            wb
            w)
          (Demoted e cycle wb w)
  unfolding send_invalidates settle_entry
  send_invx-Demoted e line_addr cycle src_id wb w ct sole owned =
      let one : e.num_sharers ≡ 1 = ground (arith, sole) in
      let excl : e.exclusive ≡ true = ground (arith, sole) in
      rw (sole, ==-ne e.num_sharers 0 (omega arith))
        (Returns->>= _ _ (Swept kids dirty invx num 0 (start e cycle wb w)) (Demoted e cycle wb w)
          (send_loop-Swept kids num rtts dirty obeys _ num 0 (start e cycle wb w) (omega arith) refl
            (λ j lo hi. owned j (omega arith)))
          λ s sw.
            let s_excl : s.entry.exclusive ≡ true = sw.exclusive ∙ excl in
            let s_one : s.entry.num_sharers ≡ 1 = sw.num_sharers ∙ one in
            rw
              (
                (==_iff s.sent_invs s.entry.num_sharers).1 (all_sent e invx cycle wb w s ct sw),
                s_excl,
                s_one,
              )
              (record {
                later = sw.later;
                sharers = λ j. ground (arith, sw.sharers j);
                num_sharers = sym one;
                not_exclusive = refl;
                length_sharers = sw.length_sharers;
                flag = sw.flag;
                states = λ j h. ground (arith, sw.states j);
              }))
