-- ===== src/Mesi/Memory.antt =====
-- `SimpleMemory` of src/mem_ctrls.cpp: the memory at the top of the hierarchy.
use cache_sim.Mesi.Types.{
  invalid, MemReq, exclusive, gets, modified, getx, shared, MesiState, puts, putx, AccessType,
}
use cache_sim.Mesi.Bottom.{set_state, Parents}
use cache_sim.Base.{
  if◌then◌else◌, ltb, ◌>>◌, ℕ, ◌+◌, ◌%◌, ◌^◌, ◌<◌, lt→ltb, length-set, get_or-set_self, ◌≡◌, refl,
  arith, assert, done,
}
use cache_sim.Mesi.Parent.{Serves, Granted}

-- The `switch` of `access`.
abbrev memory_state : MemReq → MesiState
memory_state req = elim req.type [
  | gets ↦ if req.flags.noexcl then shared else exclusive
  | getx ↦ modified
  | _ ↦ invalid
]

unfoldable pub simple_memory : {W : Type 0} → ℕ → Parents W
simple_memory latency p req b w = do
  let resp = (req.cycle + latency) % 2 ^ 64
  assert (ltb req.cycle resp)
  done (resp, set_state b req.state (memory_state req), w)

memory-Granted : (req : MemReq) → Granted req.type (memory_state req)
memory-Granted req = go req.type refl
  where
    go : (t : AccessType) → req.type ≡ t → Granted req.type (memory_state req)
    go gets e = rw e (ground arith)
    go getx e = rw e refl
    go puts e = rw e refl
    go putx e = rw e refl

-- A memory whose latency is a positive `uint32_t` serves every request.
pub simple_memory-Serves :
    (W : Type 0) (latency : ℕ)
    → 0 < latency
    → latency < 2 ^ 32
    → Serves {W = W} (simple_memory latency)
unfolding simple_memory
simple_memory-Serves W latency pos small = record {
  serve = λ p req b w early in_range plain fits.
      rw (lt→ltb req.cycle ((req.cycle + latency) % 2 ^ 64) (omega arith)) (record {
        later = omega arith;
        in_word = omega arith;
        same_lines = length-set b.array req.state (memory_state req);
        granted =
            rw (get_or-set_self b.array req.state (memory_state req) invalid in_range)
              (memory-Granted req);
      });
}
