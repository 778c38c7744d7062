-- ===== src/Mesi/Ctrl.antt =====
-- `MESICC` and `MESITerminalCC` of src/coherence_ctrls.h: the two halves of a controller, put
-- together. While the bottom half waits for a parent, the parent may reach the top half, which is
-- part of the system that a parent sees, as `TopCc × W`. Locks are left out.
pub mod Inv
pub mod Nested
pub mod Covered
pub mod Access
pub mod Evict
use cache_sim.Mesi.Types.{Flags, AccessType, is_get, MemReq, InvReq, is_put, is_gets, MesiState}
use cache_sim.Mesi.Bottom.{
  Parents, BottomCc, new_bottom, process_writeback_on_access, process_non_inclusive_writeback,
  process_inval, process_access, is_valid, process_eviction, is_exclusive,
}
use cache_sim.Mesi.Race.{check_for_mesi_race}
use cache_sim.Mesi.Top.{
  entry_at, TopCc, top_process_access, top_process_eviction, top_process_inval, new_top, Children,
}
use cache_sim.Compressor.Store.{num_lines}
use cache_sim.Base.{
  if◌then◌else◌, ◌>>◌, assert, failed, Outcome, ◌>>=◌, ℕ, Bool, true, false, not, ◌&&◌, ◌||◌,
  Option, none, some, List, done,
}

-- Both halves were made with the same `non_inclusive_hack`.
pub record MesiCc : Type 0 where
  pub bcc : BottomCc
  pub tcc : TopCc
  pub non_inclusive_hack : Bool

-- `setParents` and `setChildren`: the constructors of the two halves. The network's round-trip times
-- are arguments.
unfoldable pub new_mesi_cc : ℕ → ℕ → Bool → List ℕ → List ℕ → Outcome MesiCc
new_mesi_cc num_lines child_id hack parent_rtts children_rtts = do
  t ← new_top num_lines hack children_rtts
  done (record {
    bcc = new_bottom num_lines child_id hack parent_rtts;
    tcc = t;
    non_inclusive_hack = hack;
  })

-- `numSharers`
abbrev pub num_sharers : MesiCc → ℕ → ℕ
num_sharers c line = (entry_at c.tcc line).num_sharers

abbrev pub line_valid : MesiCc → ℕ → Bool
line_valid c line = is_valid c.bcc line

unfoldable pub should_allocate : MesiCc → AccessType → Outcome Bool
should_allocate c type =
    if is_get type then done true else (do assert c.non_inclusive_hack; done false)

-- What `nonInclusiveWriteback` hands to the parent: the child's state is read and written by it.
abbrev pub Forward : Type 0 → Type 0
Forward W = ℕ → MemReq → MesiState → BottomCc → W → Outcome (ℕ × MesiState × BottomCc × W)

module _ {W : Type 0} (kids : Children W) (access : Parents (TopCc × W))
    (forward : Forward (TopCc × W)) where
  -- Whether the access is skipped, and its type from here on.
  unfoldable pub start_access : W → MemReq → Outcome (Bool × AccessType)
  start_access w req =
      check_for_mesi_race req.type (kids.read_state req.child_id w) req.initial_state

  unfoldable pub cc_process_eviction :
      MesiCc → W → ℕ → ℕ → ℕ → ℕ → Bool → Outcome (ℕ × MesiCc × W × Bool)
  cc_process_eviction c w src_id wb_line_addr line start_cycle down = do
    (ev, t, lower, w₁) ←
        top_process_eviction kids c.tcc w wb_line_addr line false start_cycle src_id
    (ev', b, (t', w'), down') ←
        process_eviction access c.bcc (t, w₁) wb_line_addr line lower ev src_id down
    done (ev', record c { bcc = b; tcc = t' }, w', down')

  -- The first branch of `processAccess`.
  abbrev pub bypass : MesiCc → W → MemReq → ℕ → ℕ → Outcome (ℕ × MesiCc × W)
  bypass c w req line start_cycle = do
    assert c.non_inclusive_hack
    assert (is_put req.type)
    (resp, s, b, (t, w')) ←
        process_non_inclusive_writeback access forward c.bcc (c.tcc, w) req.line_addr req.type
          start_cycle (kids.read_state req.child_id w) line req.src_id req.flags
    done (resp, record c { bcc = b; tcc = t }, kids.write_state req.child_id s w')

  -- `if (lowerLevelWriteback) bcc->processWritebackOnAccess(...)`
  abbrev pub settle_writeback : BottomCc → ℕ → Bool → Outcome BottomCc
  settle_writeback b line lower = if lower then process_writeback_on_access b line else done b

  -- The directory's part of an access.
  abbrev pub serve_child : MesiCc → W → MemReq → ℕ → ℕ → Flags → Outcome (ℕ × MesiCc × W)
  serve_child c w req line cycle flags = do
    (resp, t, lower, w') ←
        top_process_access kids c.tcc w req.line_addr line req.type req.child_id
          (is_exclusive c.bcc line) false cycle req.src_id flags
    b ← settle_writeback c.bcc line lower
    done (resp, record c { bcc = b; tcc = t }, w')

  -- The second branch. Prefetches touch the bottom half alone. `getDoneCycle`, which only reports the
  -- cycle at which the bottom half is done, is left out.
  abbrev pub regular : MesiCc → W → MemReq → ℕ → ℕ → Outcome (ℕ × MesiCc × W)
  regular c w req line start_cycle = do
    assert (not req.flags.prefetch || is_gets req.type)
    let flags = record req.flags { prefetch = false }
    (resp, b, (t, w')) ←
        process_access access c.bcc (c.tcc, w) req.line_addr line req.type start_cycle req.src_id
          flags
    let c' = record c { bcc = b; tcc = t }
    if req.flags.prefetch then done (resp, c', w') else serve_child c' w' req line resp flags

  -- A line id of -1 is none; the writeback then passes on line 0, which no one reads.
  unfoldable pub cc_process_access : MesiCc → W → MemReq → Option ℕ → ℕ → Outcome (ℕ × MesiCc × W)
  cc_process_access c w req none start_cycle = bypass c w req 0 start_cycle
  cc_process_access c w req (some line) start_cycle =
      if is_put req.type && not (is_valid c.bcc line)
      then bypass c w req line start_cycle
      else regular c w req line start_cycle

  unfoldable pub process_inv : MesiCc → W → InvReq → ℕ → Bool → ℕ → Outcome (ℕ × MesiCc × Bool × W)
  process_inv c w req line writeback start_cycle = do
    (resp, t, wb, w') ←
        top_process_inval kids c.tcc w req.line_addr line req.type writeback start_cycle req.src_id
    (b, wb') ← process_inval c.bcc line req.type wb
    done (resp, record c { bcc = b; tcc = t }, wb', w')

-- `MESITerminalCC` has a bottom half only.
module _ {W : Type 0} (access : Parents W) where
  unfoldable pub terminal_start_access : MesiState → MemReq → Outcome (Bool × AccessType)
  terminal_start_access child_state req = do
    assert (is_get req.type)
    check_for_mesi_race req.type child_state req.initial_state

  unfoldable pub terminal_process_eviction :
      BottomCc → W → ℕ → ℕ → ℕ → ℕ → Bool → Outcome (ℕ × BottomCc × W × Bool)
  terminal_process_eviction b w src_id wb_line_addr line start_cycle down =
      process_eviction access b w wb_line_addr line false start_cycle src_id down

  unfoldable pub terminal_process_access :
      BottomCc → W → MemReq → Option ℕ → ℕ → Outcome (ℕ × BottomCc × W)
  terminal_process_access b w req none start_cycle = failed
  terminal_process_access b w req (some line) start_cycle =
      process_access access b w req.line_addr line req.type start_cycle req.src_id req.flags

unfoldable pub terminal_process_inv :
    BottomCc → InvReq → ℕ → Bool → ℕ → Outcome (ℕ × BottomCc × Bool)
terminal_process_inv b req line writeback start_cycle = do
  (b', wb) ← process_inval b line req.type writeback
  done (start_cycle, b', wb)
