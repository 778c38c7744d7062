-- ===== src/Mesi/Bottom/Hits.antt =====
-- `MESIBottomCC::processAccess`: the accesses that end in this cache, and what a miss costs.
use cache_sim.Mesi.Types.{
  is_invalid, is_owned, AccessType, puts, MemReq, Flags, putx, invalid, MesiState, modified, getx,
  gets, shared, exclusive,
}
use cache_sim.Base.{
  le→leb, done, Returns, length, get_or, ℕ, ◌+◌, ◌-◌, ◌^◌, ◌≤◌, ◌<◌, ◌≡◌, refl, true, false, arith,
  get_or-set_self, ◌==◌, if◌then◌else◌, get_or-set,
}
use cache_sim.Mesi.Bottom.{
  BottomCc, state_at, process_access, get_parent_id, fetch, Parents, mk_req, bump, set_state,
  getx_request,
}

-- The parent is not asked: a GETS or PUTS of a valid line, and a GETX or PUTX of one in E or M.
abbrev pub NoRequest : AccessType → MesiState → Type 0
NoRequest gets s = is_invalid s ≡ false
NoRequest getx s = is_owned s ≡ true
NoRequest puts s = is_invalid s ≡ false
NoRequest putx s = is_owned s ≡ true

getx_request-owned :
    {W : Type 0} (access : Parents W) (b : BottomCc) (w : W) (line : ℕ) (req : MemReq)
    → is_owned (state_at b line) ≡ true
    → getx_request access b w line req
      ≡ done (
        req.cycle,
        bump (set_state b line modified) (λ p. record p { getx_hit = p.getx_hit + 1 }),
        w,
      )
getx_request-owned {W} access b w line req own = go (state_at b line) refl own
  where
    go :
        (s : MesiState)
        → state_at b line ≡ s
        → is_owned s ≡ true
        → getx_request access b w line req
          ≡ done (
            req.cycle,
            bump (set_state b line modified) (λ p. record p { getx_hit = p.getx_hit + 1 }),
            w,
          )
    go invalid e o = cc
    go shared e o = cc
    go exclusive e o = rw (e, getx_request)
    go modified e o = rw (e, getx_request)

-- The state that it leaves.
abbrev pub kept_state : AccessType → MesiState → MesiState
kept_state gets s = s
kept_state getx s = modified
kept_state puts s = s
kept_state putx s = modified

-- A GETS or PUTS of a valid line, and a GETX or PUTX of one in E or M, ends in this cache whatever the
-- parent is: it takes no cycles and leaves the rest of the system as it was; a GETX or PUTX leaves the
-- line in M, and nothing else changes.
pub process_access-local :
    {W : Type 0} (access access' : Parents W) (b : BottomCc) (w : W) (line_addr line j : ℕ)
    (type : AccessType) (cycle src_id : ℕ) (flags : Flags)
    → line < length b.array
    → NoRequest type (state_at b line)
    → (process_access access b w line_addr line type cycle src_id flags
        ≡ process_access access' b w line_addr line type cycle src_id flags)
      × Returns (process_access access b w line_addr line type cycle src_id flags) (λ r.
        (r.0 ≡ cycle)
        × (r.2 ≡ w)
        × (state_at r.1 j
            ≡ (if line == j then kept_state type (state_at b line) else state_at b j)))
unfolding process_access
process_access-local access access' b w line_addr line j gets cycle src_id flags h here =
    rw (here, le→leb cycle cycle (omega arith)) (refl, (refl, refl, ground arith))
process_access-local access access' b w line_addr line j getx cycle src_id flags h here =
    rw
      (
        getx_request-owned access b w line (mk_req b line_addr line getx cycle src_id flags) here,
        getx_request-owned access' b w line (mk_req b line_addr line getx cycle src_id flags) here,
        get_or-set_self b.array line modified invalid h,
        le→leb cycle cycle (omega arith),
      )
      (refl, (refl, refl, get_or-set b.array line j modified invalid h))
process_access-local access access' b w line_addr line j puts cycle src_id flags h here =
    rw (here, le→leb cycle cycle (omega arith)) (refl, (refl, refl, ground arith))
process_access-local access access' b w line_addr line j putx cycle src_id flags h here =
    rw (here, le→leb cycle cycle (omega arith))
      (refl, (refl, refl, get_or-set b.array line j modified invalid h))

-- A request that the parent answers at cycle `resp` costs the parent's latency and the round trip
-- to it, which go to their counters too, as long as neither sum leaves its word.
fetch_latency :
    {W : Type 0} (access : Parents W) (b b' : BottomCc) (w w' : W) (req : MemReq) (resp rtt : ℕ)
    → access (get_parent_id b req.line_addr) req b w ≡ done (resp, b', w')
    → get_or b'.parent_rtts (get_parent_id b req.line_addr) 0 ≡ rtt
    → req.cycle ≤ resp
    → resp + rtt < 2 ^ 64
    → (resp - req.cycle) + rtt < 2 ^ 32
    → Returns (fetch access b w req) (λ r.
      (r.0 ≡ resp + rtt)
      × (r.1.prof.get_next_level_lat + req.cycle ≡ b'.prof.get_next_level_lat + resp)
      × (r.1.prof.get_net_lat ≡ b'.prof.get_net_lat + rtt)
      × (r.1.array ≡ b'.array)
      × (r.2 ≡ w'))
unfolding fetch
fetch_latency access b b' w w' req resp rtt e net later fits64 fits32 =
    rw (e, net) (omega arith, omega arith, refl, refl, refl)
