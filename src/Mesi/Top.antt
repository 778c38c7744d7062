-- ===== src/Mesi/Top.antt =====
-- `MESITopCC` of src/coherence_ctrls.h and src/coherence_ctrls.cpp: the directory of the caches
-- below, which are called through the interface `Children`.
pub mod Count
pub mod Loop
pub mod Send
pub mod Coherent
pub mod Access
pub mod Grant
pub mod Directory
pub mod Protocol
pub mod Recall
pub mod Reach
use cache_sim.Base.{
  if◌then◌else◌, ◌==◌, ◌>>◌, done, Outcome, assert, ◌>>=◌, get_or, set, replicate, ℕ, zero, suc,
  ◌+◌, ◌-◌, ◌%◌, ◌^◌, max, Bool, false, not, ◌&&◌, List, leb, length, true,
}
use cache_sim.Mesi.Types.{
  MesiState, InvReq, is_invx, is_inv, Flags, modified, fwd, puts, invalid, InvType, gets,
  AccessType, inv, getx, is_modified, invx, putx, shared, exclusive,
}

-- `MESITopCC::Entry`. `sharers` holds MAX_CACHE_CHILDREN bits.
pub record Entry : Type 0 where
  pub num_sharers : ℕ
  pub sharers : List Bool
  pub exclusive : Bool

abbrev pub max_cache_children : ℕ
max_cache_children = 256

abbrev pub sharer : Entry → ℕ → Bool
sharer e c = get_or e.sharers c false

abbrev pub set_sharer : Entry → ℕ → Bool → Entry
set_sharer e c v = record e { sharers = set e.sharers c v }

-- `Entry::clear`
abbrev pub clear_entry : Entry
clear_entry = record {
  num_sharers = 0;
  sharers = replicate max_cache_children false;
  exclusive = false;
}

abbrev pub is_empty : Entry → Bool
is_empty e = e.num_sharers == 0

-- `Entry::isExclusive`
abbrev pub sole_owner : Entry → Bool
sole_owner e = (e.num_sharers == 1) && e.exclusive

-- `numSharers` is a `uint32_t`.
abbrev pub inc_sharers : Entry → Entry
inc_sharers e = record e { num_sharers = (e.num_sharers + 1) % 2 ^ 32 }

abbrev pub dec_sharers : Entry → Entry
dec_sharers e = record e { num_sharers = (e.num_sharers + (2 ^ 32 - 1)) % 2 ^ 32 }

-- `sharers[c] = true; numSharers++; exclusive = excl`
abbrev pub add_sharer : Entry → ℕ → Bool → Entry
add_sharer e c excl = record (inc_sharers (set_sharer e c true)) { exclusive = excl }

-- The caches below, at the line of the request: `invalidate` is their virtual method, and
-- `read_state` and `write_state` go through the pointer `childState`. The Boolean is `*reqWriteback`.
pub record Children (W : Type 0) : Type 0 where
  pub invalidate : ℕ → InvReq → Bool → W → Outcome (ℕ × Bool × W)
  pub read_state : ℕ → W → MesiState
  pub write_state : ℕ → MesiState → W → W

-- The variables of the loop in `sendInvalidates`.
pub record Sweep (W : Type 0) : Type 0 where
  pub entry : Entry
  pub writeback : Bool
  pub world : W
  pub max_cycle : ℕ
  pub sent_invs : ℕ

-- `num` is the number of children, and `rtts` holds their round-trip times.
module _ {W : Type 0} (kids : Children W) (num : ℕ) (rtts : List ℕ) where
  unfoldable pub send_one : InvReq → ℕ → Sweep W → Outcome (Sweep W)
  send_one req c s =
      if sharer s.entry c
      then (do
        (resp, wb, w) ← kids.invalidate c req s.writeback s.world
        done (record {
          entry = if is_inv req.type then set_sharer s.entry c false else s.entry;
          writeback = wb;
          world = w;
          max_cycle = max ((resp + get_or rtts c 0) % 2 ^ 64) s.max_cycle;
          sent_invs = s.sent_invs + 1;
        }))
      else done s

  unfoldable pub send_loop : InvReq → ℕ → ℕ → Sweep W → Outcome (Sweep W)
  send_loop req zero c s = done s
  send_loop req (suc n) c s = send_one req c s >>= λ s'. send_loop req n (suc c) s'

  -- What follows the loop.
  unfoldable pub settle_entry : InvReq → Sweep W → Outcome (ℕ × Entry × Bool × W)
  settle_entry req s = do
    assert (s.sent_invs == s.entry.num_sharers)
    if is_inv req.type
        then done (s.max_cycle, record s.entry { num_sharers = 0 }, s.writeback, s.world)
        else (do
          assert s.entry.exclusive
          assert (s.entry.num_sharers == 1)
          done (s.max_cycle, record s.entry { exclusive = false }, s.writeback, s.world))

  -- `sendInvalidates`, on the entry of the line.
  unfoldable pub send_invalidates : Entry → InvReq → Bool → W → Outcome (ℕ × Entry × Bool × W)
  send_invalidates e req wb w =
      if is_invx req.type && not (sole_owner e)
      then done (req.cycle, e, wb, w)
      else if is_empty e
      then done (req.cycle, e, wb, w)
      else (do
        s ←
            send_loop req num 0 (record {
              entry = e;
              writeback = wb;
              world = w;
              max_cycle = req.cycle;
              sent_invs = 0;
            })
        settle_entry req s)

  -- The cases of the `switch` in `processAccess`. PUTX falls through to PUTS.
  abbrev pub drop_sharer : Entry → ℕ → Bool → W → ℕ → Outcome (ℕ × Entry × Bool × W)
  drop_sharer e child wb w cycle = do
    assert (sharer e child)
    done (cycle, dec_sharers (set_sharer e child false), wb, kids.write_state child invalid w)

  abbrev pub top_putx : Entry → ℕ → Bool → W → ℕ → Flags → Outcome (ℕ × Entry × Bool × W)
  top_putx e child wb w cycle flags = do
    assert (sole_owner e)
    if flags.putx_keepexcl
        then (do
          assert (sharer e child)
          assert (is_modified (kids.read_state child w))
          done (cycle, e, wb, kids.write_state child exclusive w))
        else drop_sharer e child wb w cycle

  abbrev pub top_gets :
      Entry → ℕ → ℕ → Bool → Bool → W → ℕ → ℕ → Flags → Outcome (ℕ × Entry × Bool × W)
  top_gets e line_addr child have_exclusive wb w cycle src_id flags =
      if is_empty e && have_exclusive && not flags.noexcl
      then done (
        cycle,
        record (set_sharer e child true) { exclusive = true; num_sharers = 1 },
        wb,
        kids.write_state child exclusive w,
      )
      else (do
        assert (not (sharer e child))
        (resp, e', wb', w') ←
            if sole_owner e
            then send_invalidates e
                (record { line_addr = line_addr; type = invx; cycle = cycle; src_id = src_id }) wb w
            else done (cycle, e, wb, w)
        assert (not (sole_owner e'))
        done (resp, add_sharer e' child false, wb', kids.write_state child shared w'))

  abbrev pub top_getx : Entry → ℕ → ℕ → Bool → Bool → W → ℕ → ℕ → Outcome (ℕ × Entry × Bool × W)
  top_getx e line_addr child have_exclusive wb w cycle src_id = do
    assert have_exclusive
    assert (not (sharer e child && sole_owner e))
    (resp, e', wb', w') ←
        send_invalidates (if sharer e child then dec_sharers (set_sharer e child false) else e)
          (record { line_addr = line_addr; type = inv; cycle = cycle; src_id = src_id }) wb w
    assert ((add_sharer e' child true).num_sharers == 1)
    done (resp, add_sharer e' child true, wb', kids.write_state child modified w')

  -- `processAccess`, on the entry of the line.
  unfoldable pub access_entry :
      Entry → ℕ → AccessType → ℕ → Bool → Bool → W → ℕ → ℕ → Flags → Outcome (ℕ × Entry × Bool × W)
  access_entry e line_addr type child have_exclusive wb w cycle src_id flags = elim type [
    | putx ↦ top_putx e child wb w cycle flags
    | puts ↦ drop_sharer e child wb w cycle
    | gets ↦ top_gets e line_addr child have_exclusive wb w cycle src_id flags
    | getx ↦ top_getx e line_addr child have_exclusive wb w cycle src_id
  ]

-- The controller: an entry for each line, and a round-trip time for each child.
pub record TopCc : Type 0 where
  pub array : List Entry
  pub children_rtts : List ℕ
  pub non_inclusive_hack : Bool

abbrev pub entry_at : TopCc → ℕ → Entry
entry_at t line = get_or t.array line clear_entry

abbrev pub set_entry : TopCc → ℕ → Entry → TopCc
set_entry t line e = record t { array = set t.array line e }

-- The constructor and `init`, which refuses too many children.
unfoldable pub new_top : ℕ → Bool → List ℕ → Outcome TopCc
new_top num_lines hack rtts = do
  assert (leb (length rtts) max_cache_children)
  done (record {
    array = replicate num_lines clear_entry;
    children_rtts = rtts;
    non_inclusive_hack = hack;
  })

module _ {W : Type 0} (kids : Children W) where
  -- Runs an operation on the entry of a line of the array.
  abbrev pub on_entry : TopCc → ℕ → Outcome (ℕ × Entry × Bool × W) → Outcome (ℕ × TopCc × Bool × W)
  on_entry t line m = do (resp, e, wb, w) ← m; done (resp, set_entry t line e, wb, w)

  unfoldable pub top_process_access :
      TopCc
      → W
      → ℕ
      → ℕ
      → AccessType
      → ℕ
      → Bool
      → Bool
      → ℕ
      → ℕ
      → Flags
      → Outcome (ℕ × TopCc × Bool × W)
  top_process_access t w line_addr line type child have_exclusive wb cycle src_id flags =
      on_entry t line (
        access_entry kids (length t.children_rtts) t.children_rtts (entry_at t line) line_addr type
          child have_exclusive wb w cycle src_id flags)

  unfoldable pub top_process_eviction :
      TopCc → W → ℕ → ℕ → Bool → ℕ → ℕ → Outcome (ℕ × TopCc × Bool × W)
  top_process_eviction t w wb_line_addr line wb cycle src_id =
      if t.non_inclusive_hack
      then done (cycle, set_entry t line clear_entry, wb, w)
      else on_entry t line (
          send_invalidates kids (length t.children_rtts) t.children_rtts (entry_at t line)
            (record { line_addr = wb_line_addr; type = inv; cycle = cycle; src_id = src_id }) wb w)

  unfoldable pub top_process_inval :
      TopCc → W → ℕ → ℕ → InvType → Bool → ℕ → ℕ → Outcome (ℕ × TopCc × Bool × W)
  top_process_inval t w line_addr line type wb cycle src_id = elim type [
    | fwd ↦ (do assert (not t.non_inclusive_hack); done (cycle, t, wb, w))
    | other ↦ on_entry t line (
        send_invalidates kids (length t.children_rtts) t.children_rtts (entry_at t line)
          (record { line_addr = line_addr; type = other; cycle = cycle; src_id = src_id }) wb w)
  ]
