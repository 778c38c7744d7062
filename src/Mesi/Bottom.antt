-- ===== src/Mesi/Bottom.antt =====
-- `MESIBottomCC` of src/coherence_ctrls.h and src/coherence_ctrls.cpp: the state of this cache's
-- lines towards the level above.
pub mod Inval
pub mod Serve
pub mod Evict
pub mod Hits
pub mod Frame
use Prim.Native.Nat.{bit_and, bit_xor}
use cache_sim.Base.{
  ℕ, zero, suc, ◌+◌, ◌-◌, ◌/◌, ◌%◌, ◌^◌, Bool, true, not, ◌||◌, List, leb, if◌then◌else◌, length,
  get_or, set, replicate, Outcome, done, ◌>>=◌, ◌>>◌, assert,
}
use cache_sim.Mesi.Types.{
  MesiState, invalid, shared, modified, AccessType, gets, getx, puts, putx, InvType, inv, invx, fwd,
  is_invalid, is_shared, is_clean, is_modified, is_owned, Flags, no_flags, MemReq,
}

-- The profiling counters; they count without bound.
pub record Counters : Type 0 where
  pub gets_hit : ℕ
  pub gets_miss : ℕ
  pub getx_hit : ℕ
  pub getx_miss_im : ℕ
  pub getx_miss_sm : ℕ
  pub puts_in : ℕ
  pub putx_in : ℕ
  pub inv_in : ℕ
  pub invx_in : ℕ
  pub fwd_in : ℕ
  pub get_next_level_lat : ℕ
  pub get_net_lat : ℕ

abbrev pub zero_counters : Counters
zero_counters = record {
  gets_hit = 0;
  gets_miss = 0;
  getx_hit = 0;
  getx_miss_im = 0;
  getx_miss_sm = 0;
  puts_in = 0;
  putx_in = 0;
  inv_in = 0;
  invx_in = 0;
  fwd_in = 0;
  get_next_level_lat = 0;
  get_net_lat = 0;
}

-- `parent_rtts` has one entry for each parent.
pub record BottomCc : Type 0 where
  pub array : List MesiState
  pub parent_rtts : List ℕ
  pub self_id : ℕ
  pub non_inclusive_hack : Bool
  pub prof : Counters

-- The constructor, and `init` with the round-trip times of the network.
unfoldable pub new_bottom : ℕ → ℕ → Bool → List ℕ → BottomCc
new_bottom num_lines self_id hack rtts = record {
  array = replicate num_lines invalid;
  parent_rtts = rtts;
  self_id = self_id;
  non_inclusive_hack = hack;
  prof = zero_counters;
}

-- `array[lineId]` and `array[lineId] = s`.
abbrev pub state_at : BottomCc → ℕ → MesiState
state_at b line = get_or b.array line invalid

abbrev pub set_state : BottomCc → ℕ → MesiState → BottomCc
set_state b line s = record b { array = set b.array line s }

abbrev pub is_exclusive : BottomCc → ℕ → Bool
is_exclusive b line = is_owned (state_at b line)

abbrev pub is_valid : BottomCc → ℕ → Bool
is_valid b line = not (is_invalid (state_at b line))

-- The rounds of `getParentId`: the four 16-bit pieces of the address are xored.
fold_address : ℕ → ℕ → ℕ → ℕ
fold_address zero res tmp = res
fold_address (suc n) res tmp = fold_address n (bit_xor res (bit_and 0xffff tmp)) (tmp / 2 ^ 16)

unfoldable pub get_parent_id : BottomCc → ℕ → ℕ
unfolding fold_address
get_parent_id b line_addr = fold_address 4 0 line_addr % length b.parent_rtts

abbrev pub bump : BottomCc → (Counters → Counters) → BottomCc
bump b f = record b { prof = f b.prof }

-- What a GET waits: the latency of the next level and that of the network. Both are `uint32_t`,
-- and so is their sum, which is added to a `uint64_t`.
abbrev pub next_level_lat : ℕ → ℕ → ℕ
next_level_lat resp cycle = (resp + 2 ^ 64 - cycle) % 2 ^ 32

abbrev pub add_lat : ℕ → ℕ → ℕ → ℕ
add_lat cycle next_level net = (cycle + (next_level + net) % 2 ^ 32) % 2 ^ 64

abbrev pub mk_req : BottomCc → ℕ → ℕ → AccessType → ℕ → ℕ → Flags → MemReq
mk_req b line_addr line type cycle src_id flags = record {
  line_addr = line_addr;
  type = type;
  child_id = b.self_id;
  state = line;
  cycle = cycle;
  initial_state = state_at b line;
  src_id = src_id;
  flags = flags;
}

-- `access` of the parents: a virtual call of the parent with a given number. While it runs, the
-- parent writes this line's state, and may invalidate other lines of this cache, so it is handed
-- this controller, and hands it back. `W` is the rest of the system.
abbrev pub Parents : Type 0 → Type 0
Parents W = ℕ → MemReq → BottomCc → W → Outcome (ℕ × BottomCc × W)

module _ {W : Type 0} (access : Parents W) where
  -- A request to the parent of a line.
  abbrev pub call_parent : BottomCc → W → MemReq → Outcome (ℕ × BottomCc × W)
  call_parent b w req = access (get_parent_id b req.line_addr) req b w

  -- The GET path: the parent's access, the latencies and their counters.
  unfoldable pub fetch : BottomCc → W → MemReq → Outcome (ℕ × BottomCc × W)
  fetch b w req = do
    (resp, b', w') ← call_parent b w req
    let next_level = next_level_lat resp req.cycle
    let net = get_or b'.parent_rtts (get_parent_id b req.line_addr) 0
    let counted = bump b' (λ p. record p {
      get_next_level_lat = p.get_next_level_lat + next_level;
      get_net_lat = p.get_net_lat + net;
    })
    done (add_lat req.cycle next_level net, counted, w')

  -- The cases of the `switch` in `processAccess`.
  abbrev pub on_puts : BottomCc → W → ℕ → ℕ → Outcome (ℕ × BottomCc × W)
  on_puts b w line cycle = do
    assert (is_valid b line)
    done (cycle, bump b (λ p. record p { puts_in = p.puts_in + 1 }), w)

  abbrev pub on_putx : BottomCc → W → ℕ → ℕ → Outcome (ℕ × BottomCc × W)
  on_putx b w line cycle = do
    assert (is_exclusive b line)
    done (cycle, bump (set_state b line modified) (λ p. record p { putx_in = p.putx_in + 1 }), w)

  abbrev pub on_gets : BottomCc → W → ℕ → MemReq → Outcome (ℕ × BottomCc × W)
  on_gets b w line req =
      if is_invalid (state_at b line)
      then (do
        (resp, b', w') ← fetch b w req
        assert (is_clean (state_at b' line))
        done (resp, bump b' (λ p. record p { gets_miss = p.gets_miss + 1 }), w'))
      else done (req.cycle, bump b (λ p. record p { gets_hit = p.gets_hit + 1 }), w)

  -- The counter of a GETX miss is bumped before the access, which changes the state.
  abbrev pub getx_request : BottomCc → W → ℕ → MemReq → Outcome (ℕ × BottomCc × W)
  getx_request b w line req = elim (state_at b line) [
    | invalid ↦ fetch (bump b (λ p. record p { getx_miss_im = p.getx_miss_im + 1 })) w req
    | shared ↦ fetch (bump b (λ p. record p { getx_miss_sm = p.getx_miss_sm + 1 })) w req
    | _ ↦ done (
      req.cycle,
      bump (set_state b line modified) (λ p. record p { getx_hit = p.getx_hit + 1 }),
      w,
    )
  ]

  abbrev pub on_getx : BottomCc → W → ℕ → MemReq → Outcome (ℕ × BottomCc × W)
  on_getx b w line req = do
    (resp, b', w') ← getx_request b w line req
    assert (is_modified (state_at b' line))
    done (resp, b', w')

  -- A GETS or GETX miss asks the parent for the line; the final assertion is on the cycle.
  unfoldable pub process_access :
      BottomCc → W → ℕ → ℕ → AccessType → ℕ → ℕ → Flags → Outcome (ℕ × BottomCc × W)
  process_access b w line_addr line type cycle src_id flags = do
    (resp, b', w') ← elim type [
      | puts ↦ on_puts b w line cycle
      | putx ↦ on_putx b w line cycle
      | gets ↦ on_gets b w line (mk_req b line_addr line gets cycle src_id flags)
      | getx ↦ on_getx b w line (mk_req b line_addr line getx cycle src_id flags)
    ]
    assert (leb cycle resp)
    done (resp, b', w')

  -- The `switch` of `processEviction`, on the state that the line has by then. The Boolean is
  -- `*downgrade`.
  abbrev pub write_back : BottomCc → W → ℕ → ℕ → ℕ → ℕ → Bool → Outcome (ℕ × BottomCc × W × Bool)
  write_back b w wb_line_addr line cycle src_id downgrade = elim (state_at b line) [
    | invalid ↦ done (cycle, b, w, downgrade)
    | modified ↦ (do
      (resp, b', w') ← call_parent b w (mk_req b wb_line_addr line putx cycle src_id no_flags)
      done (resp, b', w', true))
    | _ ↦ (do
      (resp, b', w') ← call_parent b w (mk_req b wb_line_addr line puts cycle src_id no_flags)
      done (resp, b', w', downgrade))
  ]

  unfoldable pub process_eviction :
      BottomCc → W → ℕ → ℕ → Bool → ℕ → ℕ → Bool → Outcome (ℕ × BottomCc × W × Bool)
  process_eviction b w wb_line_addr line lower_level_writeback cycle src_id downgrade = do
    assert (not lower_level_writeback || is_exclusive b line)
    let b₁ = if lower_level_writeback then set_state b line modified else b
    (resp, b₂, w', down) ← write_back b₁ w wb_line_addr line cycle src_id downgrade
    assert (is_invalid (state_at b₂ line))
    done (resp, b₂, w', down)

  -- A writeback of a line that this cache does not hold is passed on. `state` points into the
  -- child's array, so here the parent's access is seen to read and write that one state.
  unfoldable pub process_non_inclusive_writeback :
      (ℕ → MemReq → MesiState → BottomCc → W → Outcome (ℕ × MesiState × BottomCc × W))
      → BottomCc
      → W
      → ℕ
      → AccessType
      → ℕ
      → MesiState
      → ℕ
      → ℕ
      → Flags
      → Outcome (ℕ × MesiState × BottomCc × W)
  process_non_inclusive_writeback forward b w line_addr type cycle child_state line src_id flags =
      do
        assert b.non_inclusive_hack
        forward (get_parent_id b line_addr)
            (record (mk_req b line_addr line type cycle src_id
              (record flags { noninclwb = true })) { initial_state = child_state })
            child_state b w

unfoldable pub process_writeback_on_access : BottomCc → ℕ → Outcome BottomCc
process_writeback_on_access b line = do
  assert (is_exclusive b line)
  done (set_state b line modified)

-- The Boolean is `*reqWriteback`.
unfoldable pub process_inval : BottomCc → ℕ → InvType → Bool → Outcome (BottomCc × Bool)
process_inval b line type req_writeback = do
  assert (is_valid b line)
  let flag = req_writeback || is_modified (state_at b line)
  elim type [
    | invx ↦ (do
      assert (is_exclusive b line)
      done (bump (set_state b line shared) (λ p. record p { invx_in = p.invx_in + 1 }), flag))
    | inv ↦ done (bump (set_state b line invalid) (λ p. record p { inv_in = p.inv_in + 1 }), flag)
    | fwd ↦ (do
      assert (is_shared (state_at b line))
      done (bump b (λ p. record p { fwd_in = p.fwd_in + 1 }), req_writeback))
  ]
