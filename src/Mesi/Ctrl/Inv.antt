-- ===== src/Mesi/Ctrl/Inv.antt =====
-- `MESICC::processInv`: an invalidation from above, in the whole controller.
use cache_sim.Mesi.Top.Coherent.{Coherent}
use cache_sim.Mesi.Top.Count.{any}
use cache_sim.Mesi.Top.Loop.{Obeys}
use cache_sim.Mesi.Top.Recall.{Recalled, send_invalidates-Recalled}
use cache_sim.Mesi.Bottom.Inval.{inval_state, process_inval_lem, MayInval}
use cache_sim.Mesi.Types.{
  fwd, InvType, invx, InvReq, is_modified, is_invalid, inv, is_inv, is_owned, is_fwd,
}
use cache_sim.Mesi.Ctrl.{process_inv, MesiCc, Forward}
use cache_sim.Mesi.Bottom.{state_at, process_inval, Parents}
use cache_sim.Mesi.Top.{
  clear_entry, entry_at, sharer, TopCc, top_process_inval, sole_owner, Children,
}
use cache_sim.Base.{
  ◌==◌, ==_iff, if◌then◌else◌, Returns, Returns->>=, get_or-set_self, length, ℕ, ◌≤◌, ◌<◌, ◌≡◌,
  refl, ap, ◌∙◌, Bool, true, false, not, ◌&&◌, ◌||◌,
}

-- What `process_inv` leaves of the line `line`, in this cache and below.
pub record Invalid {W : Type 0} (kids : Children W) (num : ℕ) (dirty : ℕ → W → Bool) (c : MesiCc)
    (w : W) (req : InvReq) (line start_cycle : ℕ) (wb : Bool) (r : ℕ × MesiCc × Bool × W)
    : Type 0 where
  pub later : start_cycle ≤ r.0
  pub here : state_at r.1.bcc line ≡ inval_state req.type (state_at c.bcc line)
  pub coherent : Coherent kids num (entry_at r.1.tcc line) r.3
  pub below :
      (j : ℕ)
      → j < num
      → (if is_inv req.type then is_invalid else (λ s. not (is_owned s))) (kids.read_state j r.3)
        ≡ true
  pub flag : r.2 ≡ (
      (wb
        || any
            (λ j.
              (is_inv req.type || sole_owner (entry_at c.tcc line))
              && sharer (entry_at c.tcc line) j
              && dirty j w)
            num
            0)
      || is_modified (state_at c.bcc line))

module _ {W : Type 0} (kids : Children W) (access : Parents (TopCc × W))
    (forward : Forward (TopCc × W)) (c : MesiCc) (dirty : ℕ → W → Bool)
    (obeys : Obeys kids (length c.tcc.children_rtts) dirty) where
  -- The part of the directory.
  record Swept (type : InvType) (line cycle : ℕ) (wb : Bool) (w : W) (r : ℕ × TopCc × Bool × W)
      : Type 0 where
    recalled :
        Recalled kids
          (length c.tcc.children_rtts)
          c.tcc.children_rtts
          dirty
          obeys
          type
          cycle
          (entry_at c.tcc line)
          wb
          w
          (r.0, entry_at r.1 line, r.2, r.3)

  top_process_inval-Swept :
      (w : W) (line_addr line : ℕ) (type : InvType) (wb : Bool) (cycle src_id : ℕ)
      → is_fwd type ≡ false
      → line < length c.tcc.array
      → Coherent kids (length c.tcc.children_rtts) (entry_at c.tcc line) w
      → Returns
          (top_process_inval kids c.tcc w line_addr line type wb cycle src_id)
          (Swept type line cycle wb w)
  unfolding top_process_inval
  top_process_inval-Swept w line_addr line fwd wb cycle src_id real h co = cc
  top_process_inval-Swept w line_addr line inv wb cycle src_id real h co =
      Returns->>= _ _
        (Recalled kids (length c.tcc.children_rtts) c.tcc.children_rtts dirty obeys inv cycle
          (entry_at c.tcc line) wb w)
        (Swept inv line cycle wb w)
        (send_invalidates-Recalled kids (length c.tcc.children_rtts) c.tcc.children_rtts dirty obeys
          (entry_at c.tcc line) line_addr inv wb w cycle src_id co real)
        λ r ok. record { recalled = rw (get_or-set_self c.tcc.array line r.1 clear_entry h) ok }
  top_process_inval-Swept w line_addr line invx wb cycle src_id real h co =
      Returns->>= _ _
        (Recalled kids (length c.tcc.children_rtts) c.tcc.children_rtts dirty obeys invx cycle
          (entry_at c.tcc line) wb w)
        (Swept invx line cycle wb w)
        (send_invalidates-Recalled kids (length c.tcc.children_rtts) c.tcc.children_rtts dirty obeys
          (entry_at c.tcc line) line_addr invx wb w cycle src_id co real)
        λ r ok. record { recalled = rw (get_or-set_self c.tcc.array line r.1 clear_entry h) ok }

  -- An INV or INVX that the state of the line permits succeeds. Afterwards the line is in I, or in S,
  -- here; no cache below has it at all, or has it in E or M; the directory is coherent; and the flag
  -- is raised exactly when the data was dirty here, or in a cache below that had to give it up.
  pub process_inv-Invalid :
      (w : W) (req : InvReq) (line start_cycle : ℕ) (wb : Bool)
      → is_fwd req.type ≡ false
      → line < length c.bcc.array
      → line < length c.tcc.array
      → MayInval req.type (state_at c.bcc line)
      → Coherent kids (length c.tcc.children_rtts) (entry_at c.tcc line) w
      → Returns
          (process_inv kids access forward c w req line wb start_cycle)
          (Invalid kids (length c.tcc.children_rtts) dirty c w req line start_cycle wb)
  unfolding process_inv
  process_inv-Invalid w req line start_cycle wb real in_bcc in_tcc may co =
      Returns->>= _ _ (Swept req.type line start_cycle wb w)
        (Invalid kids (length c.tcc.children_rtts) dirty c w req line start_cycle wb)
        (top_process_inval-Swept w req.line_addr line req.type wb start_cycle req.src_id real in_tcc
          co)
        λ r swept.
          Returns->>= (process_inval c.bcc line req.type r.2) _
            (λ p.
              (state_at p.0 line ≡ (
                if line == line
                then inval_state req.type (state_at c.bcc line)
                else state_at c.bcc line))
              × (p.1 ≡ (r.2 || is_modified (state_at c.bcc line)))
              × (length p.0.array ≡ length c.bcc.array))
            (Invalid kids (length c.tcc.children_rtts) dirty c w req line start_cycle wb)
            (process_inval_lem c.bcc line line req.type r.2 in_bcc may)
            λ p bottom. record {
              later = swept.recalled.later;
              here =
                  bottom.0
                  ∙ ap
                      (λ b.
                        if b
                        then inval_state req.type (state_at c.bcc line)
                        else state_at c.bcc line)
                      ((==_iff line line).1 refl);
              coherent = swept.recalled.coherent;
              below = swept.recalled.recalled;
              flag =
                  bottom.1 ∙ ap (λ b. b || is_modified (state_at c.bcc line)) swept.recalled.flag;
            }
