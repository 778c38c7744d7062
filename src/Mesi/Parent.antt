-- ===== src/Mesi/Parent.antt =====
-- What a controller relies on when it calls its parent: the interface between a cache and the
-- level above. src/mem_ctrls.cpp's `SimpleMemory` meets it.
use cache_sim.Base.{ℕ, ◌^◌, ◌≤◌, ◌<◌, ◌≡◌, ◌⊎◌, true, length, Returns, false}
use cache_sim.Mesi.Types.{
  MesiState, invalid, shared, modified, AccessType, gets, getx, puts, putx, is_clean, MemReq,
}
use cache_sim.Mesi.Bottom.{BottomCc, state_at, Parents}

-- A request that agrees with the state of its line: a GETS for an invalid line, a GETX for one that
-- is not owned, a PUTS of a clean line, a PUTX of a dirty one.
abbrev pub Fits : AccessType → MesiState → Type 0
Fits gets s = s ≡ invalid
Fits getx s = (s ≡ invalid) ⊎ (s ≡ shared)
Fits puts s = is_clean s ≡ true
Fits putx s = s ≡ modified

-- The state that the request leaves behind: a GETS gives S or E, a GETX M, and a PUT I.
abbrev pub Granted : AccessType → MesiState → Type 0
Granted gets s = is_clean s ≡ true
Granted getx s = s ≡ modified
Granted puts s = s ≡ invalid
Granted putx s = s ≡ invalid

-- The answer `(resp, b', w')` to a request from the controller `b`.
pub record Answer {W : Type 0} (req : MemReq) (b : BottomCc) (r : ℕ × BottomCc × W) : Type 0 where
  pub later : req.cycle ≤ r.0
  pub in_word : r.0 < 2 ^ 64
  pub same_lines : length r.1.array ≡ length b.array
  pub granted : Granted req.type (state_at r.1 req.state)

-- A parent that answers every request which fits its line, at a cycle below 2 ^ 63.
pub record Serves {W : Type 0} (access : Parents W) : Type 0 where
  pub serve :
      (p : ℕ) (req : MemReq) (b : BottomCc) (w : W)
      → req.cycle < 2 ^ 63
      → req.state < length b.array
      → req.flags.putx_keepexcl ≡ false
      → Fits req.type (state_at b req.state)
      → Returns (access p req b w) (Answer req b)
