-- ===== src/Mesi/Top/Loop.antt =====
-- The loop of `MESITopCC::sendInvalidates`: what it does to every child of a range.
use cache_sim.Mesi.Top.Count.{bit, count, any, within, count-ext, any-ext}
use cache_sim.Mesi.Bottom.Inval.{MayInval, inval_state}
use cache_sim.Mesi.Types.{is_fwd, InvType, MesiState, InvReq, is_inv}
use cache_sim.Base.{
  ◌==◌, Bool-cases, if◌then◌else◌, Returns, length, ℕ, ◌+◌, ◌≤◌, ◌<◌, ◌≡◌, refl, ◌≢◌, inl, inr,
  Bool, true, false, ◌&&◌, ◌||◌, List, arith, Returns->>=, length-set, get_or-set_default,
  Returns-map, zero, suc, ◌∙◌,
}
use cache_sim.Mesi.Top.{Children, Sweep, send_one, sharer, send_loop}

-- What an invalidation of the child `c` does: it moves the state of that child as asked and of no
-- other, and raises the flag exactly when data under that child was dirty.
pub record Invalidated {W : Type 0} (kids : Children W) (dirty : ℕ → W → Bool) (c : ℕ)
    (req : InvReq) (wb : Bool) (w : W) (r : ℕ × Bool × W) : Type 0 where
  pub flag : r.1 ≡ (wb || dirty c w)
  pub states :
      (j : ℕ)
      → kids.read_state j r.2
        ≡ (if c == j then inval_state req.type (kids.read_state j w) else kids.read_state j w)
  pub others : (j : ℕ) → c ≢ j → dirty j r.2 ≡ dirty j w

-- What the directory needs of the first `num` caches below: a permitted invalidation succeeds, and
-- a write through `childState` changes the state of that child alone.
pub record Obeys {W : Type 0} (kids : Children W) (num : ℕ) (dirty : ℕ → W → Bool) : Type 0 where
  pub invalidated :
      (c : ℕ) (req : InvReq) (wb : Bool) (w : W)
      → c < num
      → is_fwd req.type ≡ false
      → MayInval req.type (kids.read_state c w)
      → Returns (kids.invalidate c req wb w) (Invalidated kids dirty c req wb w)
  pub written :
      (c : ℕ) (s : MesiState) (w : W)
      → c < num
      → (j : ℕ)
      → kids.read_state j (kids.write_state c s w) ≡ (if c == j then s else kids.read_state j w)

-- The state of the loop after the children `c, …, c + n - 1`, from the state `s` before them.
pub record Swept {W : Type 0} (kids : Children W) (dirty : ℕ → W → Bool) (type : InvType) (n c : ℕ)
    (s s' : Sweep W) : Type 0 where
  pub sharers :
      (j : ℕ)
      → sharer s'.entry j ≡ (if within c n j && is_inv type then false else sharer s.entry j)
  pub states :
      (j : ℕ)
      → kids.read_state j s'.world ≡ (
          if within c n j && sharer s.entry j
          then inval_state type (kids.read_state j s.world)
          else kids.read_state j s.world)
  pub flag : s'.writeback ≡ (s.writeback || any (λ j. sharer s.entry j && dirty j s.world) n c)
  pub sent : s'.sent_invs ≡ s.sent_invs + count (sharer s.entry) n c
  pub num_sharers : s'.entry.num_sharers ≡ s.entry.num_sharers
  pub exclusive : s'.entry.exclusive ≡ s.entry.exclusive
  pub length_sharers : length s'.entry.sharers ≡ length s.entry.sharers
  pub later : s.max_cycle ≤ s'.max_cycle

module _ {W : Type 0} (kids : Children W) (num : ℕ) (rtts : List ℕ) (dirty : ℕ → W → Bool)
    (obeys : Obeys kids num dirty) where
  -- One child, as a record over the range of that child alone.
  record Sent (type : InvType) (c : ℕ) (s s' : Sweep W) : Type 0 where
    sharers :
        (j : ℕ) → sharer s'.entry j ≡ (if c == j && is_inv type then false else sharer s.entry j)
    states :
        (j : ℕ)
        → kids.read_state j s'.world ≡ (
            if c == j && sharer s.entry j
            then inval_state type (kids.read_state j s.world)
            else kids.read_state j s.world)
    flag : s'.writeback ≡ (s.writeback || (sharer s.entry c && dirty c s.world))
    others : (j : ℕ) → c ≢ j → dirty j s'.world ≡ dirty j s.world
    sent : s'.sent_invs ≡ s.sent_invs + bit (sharer s.entry c)
    num_sharers : s'.entry.num_sharers ≡ s.entry.num_sharers
    exclusive : s'.entry.exclusive ≡ s.entry.exclusive
    length_sharers : length s'.entry.sharers ≡ length s.entry.sharers
    later : s.max_cycle ≤ s'.max_cycle

  send_one-Sent :
      (req : InvReq) (c : ℕ) (s : Sweep W)
      → c < num
      → is_fwd req.type ≡ false
      → (sharer s.entry c ≡ true → MayInval req.type (kids.read_state c s.world))
      → Returns (send_one kids num rtts req c s) (Sent req.type c s)
  unfolding send_one
  send_one-Sent req c s c_in not_fwd may = elim (Bool-cases (sharer s.entry c)) [
    | inl here ↦ rw here (
        Returns->>= _ _ (Invalidated kids dirty c req s.writeback s.world) (Sent req.type c s)
          (obeys.invalidated c req s.writeback s.world c_in not_fwd (may here))
          λ r inv_ok. record {
            sharers = λ j. ground (arith, get_or-set_default s.entry.sharers c j false);
            states = λ j. ground (arith, inv_ok.states j);
            flag = ground (arith, inv_ok.flag);
            others = inv_ok.others;
            sent = ground arith;
            num_sharers = ground arith;
            exclusive = ground arith;
            length_sharers = ground (arith, length-set s.entry.sharers c false);
            later = omega arith;
          })
    | inr away ↦ rw away (record {
      sharers = λ j. ground arith;
      states = λ j. ground arith;
      flag = ground arith;
      others = λ j ne. refl;
      sent = rw away (omega arith);
      num_sharers = refl;
      exclusive = refl;
      length_sharers = refl;
      later = omega arith;
    })
  ]

  pub send_loop-Swept :
      (req : InvReq) (n c : ℕ) (s : Sweep W)
      → c + n ≤ num
      → is_fwd req.type ≡ false
      → ((j : ℕ)
          → c ≤ j
          → j < c + n
          → sharer s.entry j ≡ true
          → MayInval req.type (kids.read_state j s.world))
      → Returns (send_loop kids num rtts req n c s) (Swept kids dirty req.type n c s)
  unfolding send_loop any count
  send_loop-Swept req zero c s fits not_fwd may = record {
    sharers = λ j. ground arith;
    states = λ j. ground arith;
    flag = ground arith;
    sent = omega arith;
    num_sharers = refl;
    exclusive = refl;
    length_sharers = refl;
    later = omega arith;
  }
  send_loop-Swept req (suc n) c s fits not_fwd may =
      Returns->>= _ _ (Sent req.type c s) (Swept kids dirty req.type (suc n) c s)
        (send_one-Sent req c s (omega arith) not_fwd (may c (omega arith) (omega arith)))
        λ s₁ one.
          Returns-map _ (Swept kids dirty req.type n (suc c) s₁)
            (Swept kids dirty req.type (suc n) c s)
            (send_loop-Swept req n (suc c) s₁ (omega arith) not_fwd λ j lo hi on.
              let same : kids.read_state j s₁.world ≡ kids.read_state j s.world =
                ground (arith, one.states j) in
              rw same (may j (omega arith) (omega arith) (ground (arith, one.sharers j))))
            λ s₂ rest. record {
              sharers = λ j. ground (arith, one.sharers j, rest.sharers j);
              states = λ j. ground (arith, one.states j, one.sharers j, rest.states j);
              flag = ground (
                arith,
                one.flag,
                rest.flag,
                any-ext (λ j. sharer s₁.entry j && dirty j s₁.world)
                    (λ j. sharer s.entry j && dirty j s.world) n (suc c)
                    (λ j lo hi. ground (arith, one.sharers j, one.others j)),
              );
              sent = omega (
                arith,
                one.sent,
                rest.sent,
                count-ext (sharer s₁.entry) (sharer s.entry) n (suc c)
                    (λ j lo. ground (arith, one.sharers j)),
              );
              num_sharers = rest.num_sharers ∙ one.num_sharers;
              exclusive = rest.exclusive ∙ one.exclusive;
              length_sharers = rest.length_sharers ∙ one.length_sharers;
              later = omega (arith, one.later, rest.later);
            }
