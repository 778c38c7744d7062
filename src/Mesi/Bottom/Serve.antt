-- ===== src/Mesi/Bottom/Serve.antt =====
-- `MESIBottomCC::processAccess` over any parent that serves the requests which fit their lines.
use cache_sim.Mesi.Types.{
  putx, getx, puts, modified, is_invalid, gets, is_clean, is_owned, MemReq, MesiState, AccessType,
  Flags, invalid, exclusive, shared,
}
use cache_sim.Mesi.Parent.{Serves, Fits, Answer, Granted}
use cache_sim.Base.{
  if◌then◌else◌, Returns, Returns->>=, length, ℕ, ◌^◌, ◌≤◌, ◌<◌, ◌≡◌, true, false, arith,
  Bool-cases, refl, inl, inr, le→leb, Returns-map, get_or-set_self, length-set, ◌+◌,
}
use cache_sim.Mesi.Bottom.{
  BottomCc, state_at, fetch, process_access, Parents, getx_request, on_gets, set_state, on_puts,
  mk_req, on_putx, bump, Counters, on_getx,
}

-- What a child may ask of the line: a PUTS of a line that is here, a PUTX of one that is owned.
abbrev pub MayAccess : AccessType → MesiState → Type 0
MayAccess gets s = Unit {0}
MayAccess getx s = Unit {0}
MayAccess puts s = is_invalid s ≡ false
MayAccess putx s = is_owned s ≡ true

-- The state `s'` of the line afterwards, from the state `s` before.
abbrev pub Ready : AccessType → MesiState → MesiState → Type 0
Ready gets s s' = if is_invalid s then is_clean s' ≡ true else s' ≡ s
Ready getx s s' = s' ≡ modified
Ready puts s s' = s' ≡ s
Ready putx s s' = s' ≡ modified

pub record Accessed {W : Type 0} (type : AccessType) (cycle line : ℕ) (b : BottomCc)
    (r : ℕ × BottomCc × W) : Type 0 where
  pub later : cycle ≤ r.0
  pub same_lines : length r.1.array ≡ length b.array
  pub ready : Ready type (state_at b line) (state_at r.1 line)

pub invalid_of : (s : MesiState) → is_invalid s ≡ true → s ≡ invalid
invalid_of s e = ground arith

-- What `fetch` makes of the parent's answer.
record Fetched {W : Type 0} (req : MemReq) (b : BottomCc) (r : ℕ × BottomCc × W) : Type 0 where
  later : req.cycle ≤ r.0
  same_lines : length r.1.array ≡ length b.array
  granted : Granted req.type (state_at r.1 req.state)

module _ {W : Type 0} (access : Parents W) (parent : Serves access) where
  fetch-Fetched :
      (b : BottomCc) (w : W) (req : MemReq)
      → req.cycle < 2 ^ 63
      → req.state < length b.array
      → req.flags.putx_keepexcl ≡ false
      → Fits req.type (state_at b req.state)
      → Returns (fetch access b w req) (Fetched req b)
  unfolding fetch
  fetch-Fetched b w req early in_range plain fits =
      Returns->>= _ _ (Answer req b) (Fetched req b)
        (parent.serve _ req b w early in_range plain fits)
        λ a answer. record {
          later = omega arith;
          same_lines = answer.same_lines;
          granted = answer.granted;
        }

  on_gets-Accessed :
      (b : BottomCc) (w : W) (line : ℕ) (req : MemReq)
      → req.type ≡ gets
      → req.state ≡ line
      → req.cycle < 2 ^ 63
      → line < length b.array
      → req.flags.putx_keepexcl ≡ false
      → Returns (on_gets access b w line req) (Accessed gets req.cycle line b)
  on_gets-Accessed b w line req et es early in_range plain =
      elim (Bool-cases (is_invalid (state_at b line))) [
        | inl missing ↦ rw missing (
            Returns->>= _ _ (Fetched req b) (Accessed gets req.cycle line b)
              (fetch-Fetched b w req early (rw es in_range) plain
                (rw (et, es) (invalid_of (state_at b line) missing)))
              λ a got.
                let clean : is_clean (state_at a.1 line) ≡ true = ground (arith, got.granted) in
                rw clean (record {
                  later = got.later;
                  same_lines = got.same_lines;
                  ready = rw missing clean;
                }))
        | inr here ↦
            rw here (record { later = omega arith; same_lines = refl; ready = rw here refl })
      ]

  getx_request-Accessed :
      (b : BottomCc) (w : W) (line : ℕ) (req : MemReq)
      → req.type ≡ getx
      → req.state ≡ line
      → req.cycle < 2 ^ 63
      → line < length b.array
      → req.flags.putx_keepexcl ≡ false
      → Returns (getx_request access b w line req) (Accessed getx req.cycle line b)
  getx_request-Accessed b w line req et es early in_range plain = go (state_at b line) refl
    where
      from_parent :
          (f : Counters → Counters)
          → Fits getx (state_at b line)
          → Returns (fetch access (bump b f) w req) (Accessed getx req.cycle line b)
      from_parent f fits =
          Returns-map _ (Fetched req (bump b f)) (Accessed getx req.cycle line b)
            (fetch-Fetched (bump b f) w req early (rw es in_range) plain (rw (et, es) fits))
            λ a got. record {
              later = got.later;
              same_lines = got.same_lines;
              ready = ground (arith, got.granted);
            }

      owned : Accessed {W = W} getx req.cycle line b (
        req.cycle,
        bump (set_state b line modified) (λ p. record p { getx_hit = p.getx_hit + 1 }),
        w,
      )
      owned = record {
        later = omega arith;
        same_lines = length-set b.array line modified;
        ready = get_or-set_self b.array line modified invalid in_range;
      }

      go :
          (s : MesiState)
          → state_at b line ≡ s
          → Returns (getx_request access b w line req) (Accessed getx req.cycle line b)
      go invalid e =
          rw (e, getx_request)
            (from_parent (λ p. record p { getx_miss_im = p.getx_miss_im + 1 }) (inl e))
      go shared e =
          rw (e, getx_request)
            (from_parent (λ p. record p { getx_miss_sm = p.getx_miss_sm + 1 }) (inr e))
      go exclusive e = rw (e, getx_request) owned
      go modified e = rw (e, getx_request) owned

  -- Over a parent that serves, no access before cycle 2 ^ 63 to a line of this cache trips an
  -- assertion, if a PUT finds the line here and a PUTX owned, and KEEPEXCL is not set. The answer is no earlier than the
  -- access; a GETS miss leaves the line in S or E, a GETS hit or a PUTS leaves it alone, and a GETX
  -- or a PUTX leaves it in M.
  pub process_access_lem :
      (b : BottomCc) (w : W) (line_addr line : ℕ) (type : AccessType) (cycle src_id : ℕ)
      (flags : Flags)
      → cycle < 2 ^ 63
      → line < length b.array
      → flags.putx_keepexcl ≡ false
      → MayAccess type (state_at b line)
      → Returns
          (process_access access b w line_addr line type cycle src_id flags)
          (Accessed type cycle line b)
  unfolding process_access
  process_access_lem b w line_addr line type cycle src_id flags early in_range plain may =
      Returns->>= _ _ (Accessed type cycle line b) (Accessed type cycle line b) (by_type type may)
        λ r acc. rw (le→leb cycle r.0 acc.later) acc
    where
      by_type :
          (t : AccessType)
          → MayAccess t (state_at b line)
          → Returns
              (elim t [
                | puts ↦ on_puts access b w line cycle
                | putx ↦ on_putx access b w line cycle
                | gets ↦ on_gets access b w line (mk_req b line_addr line gets cycle src_id flags)
                | getx ↦ on_getx access b w line (mk_req b line_addr line getx cycle src_id flags)
              ])
              (Accessed t cycle line b)
      by_type gets ok = on_gets-Accessed b w line _ refl refl early in_range plain
      by_type getx ok =
          Returns->>= _ _ (Accessed getx cycle line b) (Accessed getx cycle line b)
            (getx_request-Accessed b w line _ refl refl early in_range plain)
            λ r acc. rw acc.ready acc
      by_type puts ok = rw ok (record { later = omega arith; same_lines = refl; ready = refl })
      by_type putx ok = rw ok (record {
        later = omega arith;
        same_lines = length-set b.array line modified;
        ready = get_or-set_self b.array line modified invalid in_range;
      })
