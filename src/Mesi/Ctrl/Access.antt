-- ===== src/Mesi/Ctrl/Access.antt =====
-- `MESICC::processAccess`: an access of a cache below, through both halves of the controller.
use cache_sim.Util.InList.{own}
use cache_sim.Mesi.Ctrl.Covered.{access_entry-Covers}
use cache_sim.Mesi.Top.Loop.{Obeys}
use cache_sim.Mesi.Top.Access.{Given, Served, is_asked}
use cache_sim.Mesi.Ctrl.Nested.{Covers, Nested, DirtyOwned, num_kids, any-witness}
use cache_sim.Mesi.Types.{
  is_invalid, MemReq, Flags, AccessType, putx, is_owned, getx, invalid, modified,
}
use cache_sim.Mesi.Parent.{Fits}
use cache_sim.Mesi.Ctrl.{MesiCc, serve_child, Forward, settle_writeback}
use cache_sim.Mesi.Bottom.{BottomCc, Parents, state_at, is_exclusive, process_writeback_on_access}
use cache_sim.Mesi.Top.{entry_at, TopCc, Children, top_process_access, clear_entry}
use cache_sim.Base.{
  Returns, length, ℕ, ◌≤◌, ◌<◌, ◌≡◌, Bool, true, false, arith, Returns->>=, length-set,
  get_or-set_self, refl, ◌&&◌,
}

-- The answer to an access of the line `line` by the child `req.child_id`.
pub record Answered {W : Type 0} (kids : Children W) (line : ℕ) (req : MemReq) (start_cycle : ℕ)
    (r : ℕ × MesiCc × W) : Type 0 where
  pub later : start_cycle ≤ r.0
  pub nested : Nested kids line r.1 r.2
  pub given : Given req.type req.flags (kids.read_state req.child_id r.2)

module _ {W : Type 0} (kids : Children W) (access : Parents (TopCc × W))
    (forward : Forward (TopCc × W)) (line : ℕ) (dirty : ℕ → W → Bool) (c : MesiCc)
    (obeys : Obeys kids (num_kids kids c) dirty) where
  -- `settle_writeback` succeeds on a line that may become dirty, and takes nothing from it.
  settle-owned :
      (b : BottomCc) (lower : Bool)
      → line < length b.array
      → is_invalid (state_at b line) ≡ false
      → (lower ≡ true → is_owned (state_at b line) ≡ true)
      → Returns (settle_writeback kids access forward b line lower) (λ b'.
        (length b'.array ≡ length b.array)
        × (is_invalid (state_at b' line) ≡ false)
        × (is_owned (state_at b line) ≡ true → is_owned (state_at b' line) ≡ true))
  unfolding process_writeback_on_access
  settle-owned b false h here may = (refl, here, λ o. o)
  settle-owned b true h here may = rw (may refl) (
    length-set b.array line modified,
    rw (get_or-set_self b.array line modified invalid h) refl,
    (λ o. rw (get_or-set_self b.array line modified invalid h) refl),
  )

  -- The result of the directory's part.
  record TopServed (type : AccessType) (flags : Flags) (child cycle : ℕ) (w : W)
      (r : ℕ × TopCc × Bool × W) : Type 0 where
    served :
        Served kids
          (num_kids kids c)
          c.tcc.children_rtts
          dirty
          obeys
          type
          flags
          child
          cycle
          (entry_at c.tcc line)
          false
          w
          (r.0, entry_at r.1 line, r.2, r.3)
    covers : Covers kids (num_kids kids c) (state_at c.bcc line) r.3
    same_rtts : r.1.children_rtts ≡ c.tcc.children_rtts
    same_array : length r.1.array ≡ length c.tcc.array

  top-Served :
      (w : W) (line_addr : ℕ) (type : AccessType) (child cycle src_id : ℕ) (flags : Flags)
      → Nested kids line c w
      → is_invalid (state_at c.bcc line) ≡ false
      → (type ≡ getx → is_owned (state_at c.bcc line) ≡ true)
      → (type ≡ putx → is_owned (state_at c.bcc line) ≡ true)
      → child < num_kids kids c
      → Fits type (kids.read_state child w)
      → Returns
          (top_process_access kids c.tcc w line_addr line type child
            (is_exclusive c.bcc line)
            false
            cycle
            src_id
            flags)
          (TopServed type flags child cycle w)
  unfolding top_process_access
  top-Served w line_addr type child cycle src_id flags ne here getx_own putx_own h fits =
      Returns->>= _ _
        (λ r.
          Served kids (num_kids kids c) c.tcc.children_rtts dirty obeys type flags child cycle
            (entry_at c.tcc line) false w r
          × Covers kids (num_kids kids c) (state_at c.bcc line) r.3)
        (TopServed type flags child cycle w)
        (access_entry-Covers kids (num_kids kids c) c.tcc.children_rtts dirty obeys
          (entry_at c.tcc line) line_addr type child (state_at c.bcc line) false w cycle src_id
          flags ne.coherent h fits here getx_own putx_own ne.covers)
        λ r p. record {
          served = rw (get_or-set_self c.tcc.array line r.1 clear_entry ne.in_tcc) p.0;
          covers = p.1;
          same_rtts = refl;
          same_array = length-set c.tcc.array line r.1;
        }

  -- The flag is raised only for data of a cache below that had the line exclusively.
  lower_owned :
      (type : AccessType) (flags : Flags) (child cycle : ℕ) (w : W) (r : ℕ × TopCc × Bool × W)
      → DirtyOwned kids dirty (num_kids kids c)
      → Covers kids (num_kids kids c) (state_at c.bcc line) w
      → TopServed type flags child cycle w r
      → r.2 ≡ true
      → is_owned (state_at c.bcc line) ≡ true
  lower_owned type flags child cycle w r own cov top on =
      let (j, lo, hi, asked) =
        any-witness (λ j. is_asked type (entry_at c.tcc line) child j && dirty j w)
          (num_kids kids c) 0 (ground (arith, top.served.flag, on)) in
      cov.owned j (omega arith) (own j w (omega arith) (ground (arith, asked)))

  -- The directory's part of an access, after the bottom half left the state that the access needs.
  pub serve_child-Answered :
      (w : W) (req : MemReq) (cycle : ℕ) (flags : Flags)
      → DirtyOwned kids dirty (num_kids kids c)
      → Nested kids line c w
      → is_invalid (state_at c.bcc line) ≡ false
      → (req.type ≡ getx → is_owned (state_at c.bcc line) ≡ true)
      → (req.type ≡ putx → is_owned (state_at c.bcc line) ≡ true)
      → req.child_id < num_kids kids c
      → Fits req.type (kids.read_state req.child_id w)
      → Returns (serve_child kids access forward c w req line cycle flags) (λ r.
        (cycle ≤ r.0)
        × Nested kids line r.1 r.2
        × Given req.type flags (kids.read_state req.child_id r.2))
  serve_child-Answered w req cycle flags own ne here getx_own putx_own h fits =
      Returns->>= _ _ (TopServed req.type flags req.child_id cycle w) _
        (top-Served w req.line_addr req.type req.child_id cycle req.src_id flags ne here getx_own
          putx_own h fits)
        λ r top.
          Returns->>= (settle_writeback kids access forward c.bcc line r.2) _ _ _
            (settle-owned c.bcc r.2 ne.in_bcc here
              (lower_owned req.type flags req.child_id cycle w r own ne.covers top))
            λ b (same, valid, owned). (
              top.served.later,
              record {
                in_bcc = rw same ne.in_bcc;
                in_tcc = rw top.same_array ne.in_tcc;
                coherent = rw top.same_rtts top.served.coherent;
                covers = rw top.same_rtts (record {
                  valid = λ j hj v. valid;
                  owned = λ j hj o. owned (top.covers.owned j hj o);
                });
              },
              top.served.given,
            )
