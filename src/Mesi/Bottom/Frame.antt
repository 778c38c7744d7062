-- ===== src/Mesi/Bottom/Frame.antt =====
-- What `MESIBottomCC` leaves alone: its operations change the rest of the system by calls of the
-- parent only, at the line of the access.
use cache_sim.Mesi.Types.{
  is_clean, gets, invalid, exclusive, is_invalid, modified, AccessType, getx, puts, putx,
  is_modified, no_flags, shared, MemReq, Flags, MesiState,
}
use cache_sim.Mesi.Bottom.{
  on_getx, mk_req, is_valid, state_at, Parents, process_eviction, get_parent_id, set_state,
  getx_request, call_parent, on_gets, on_puts, on_putx, BottomCc, process_access, fetch, bump,
  is_exclusive, write_back,
}
use cache_sim.Base.{
  leb, if◌then◌else◌, Bool-cases, Ensures-assert, Ensures, done, Ensures->>=, ◌>>=◌, ℕ, ◌+◌, ◌≡◌,
  refl, inl, inr, Bool, true, not, ◌||◌,
}

-- A relation on the rest of the system that no call of the parent for this line breaks.
pub record Keeps {W : Type 0} (access : Parents W) (line : ℕ) (R : W → W → Type 0) : Type 0 where
  pub none_made : (w : W) → R w w
  pub call_made :
      (p : ℕ) (req : MemReq) (b : BottomCc) (w : W)
      → req.state ≡ line
      → Ensures (access p req b w) (λ r. R w r.2)

module _ {W : Type 0} (access : Parents W) (line : ℕ) (R : W → W → Type 0)
    (keeps : Keeps access line R) where
  fetch-keeps :
      (b : BottomCc) (w : W) (req : MemReq)
      → req.state ≡ line
      → Ensures (fetch access b w req) (λ r. R w r.2)
  unfolding fetch
  fetch-keeps b w req e =
      Ensures->>= (access (get_parent_id b req.line_addr) req b w) _ (λ r. R w r.2) (λ r. R w r.2)
        (keeps.call_made (get_parent_id b req.line_addr) req b w e) λ r k. k

  getx_request-keeps :
      (b : BottomCc) (w : W) (req : MemReq)
      → req.state ≡ line
      → Ensures (getx_request access b w line req) (λ r. R w r.2)
  getx_request-keeps b w req e = go (state_at b line) refl
    where
      go :
          (s : MesiState)
          → state_at b line ≡ s
          → Ensures (getx_request access b w line req) (λ r. R w r.2)
      go invalid es =
          rw (es, getx_request)
            (fetch-keeps (bump b (λ p. record p { getx_miss_im = p.getx_miss_im + 1 })) w req e)
      go shared es =
          rw (es, getx_request)
            (fetch-keeps (bump b (λ p. record p { getx_miss_sm = p.getx_miss_sm + 1 })) w req e)
      go exclusive es = rw (es, getx_request) (keeps.none_made w)
      go modified es = rw (es, getx_request) (keeps.none_made w)

  on_gets-keeps :
      (b : BottomCc) (w : W) (req : MemReq)
      → req.state ≡ line
      → Ensures (on_gets access b w line req) (λ r. R w r.2)
  on_gets-keeps b w req e = elim (Bool-cases (is_invalid (state_at b line))) [
    | inl missing ↦ rw missing (
        Ensures->>= (fetch access b w req) _ (λ r. R w r.2) (λ r. R w r.2) (fetch-keeps b w req e)
          λ r k. Ensures-assert (is_clean (state_at r.1 line)) _ (λ r'. R w r'.2) (λ _. k))
    | inr here ↦ rw here (keeps.none_made w)
  ]

  pub process_access-keeps :
      (b : BottomCc) (w : W) (line_addr : ℕ) (type : AccessType) (cycle src_id : ℕ) (flags : Flags)
      → Ensures (process_access access b w line_addr line type cycle src_id flags) (λ r. R w r.2)
  unfolding process_access
  process_access-keeps b w line_addr type cycle src_id flags =
      Ensures->>= _ _ (λ r. R w r.2) (λ r. R w r.2) (by_type type)
        λ r k. Ensures-assert (leb cycle r.0) _ (λ r'. R w r'.2) (λ _. k)
    where
      by_type :
          (t : AccessType)
          → Ensures
              (elim t [
                | puts ↦ on_puts access b w line cycle
                | putx ↦ on_putx access b w line cycle
                | gets ↦ on_gets access b w line (mk_req b line_addr line gets cycle src_id flags)
                | getx ↦ on_getx access b w line (mk_req b line_addr line getx cycle src_id flags)
              ])
              (λ r. R w r.2)
      by_type gets = on_gets-keeps b w (mk_req b line_addr line gets cycle src_id flags) refl
      by_type getx =
          Ensures->>=
            (getx_request access b w line (mk_req b line_addr line getx cycle src_id flags)) _
            (λ r. R w r.2) (λ r. R w r.2)
            (getx_request-keeps b w (mk_req b line_addr line getx cycle src_id flags) refl)
            λ r k. Ensures-assert (is_modified (state_at r.1 line)) _ (λ r'. R w r'.2) (λ _. k)
      by_type puts = Ensures-assert (is_valid b line) _ (λ r'. R w r'.2) (λ _. keeps.none_made w)
      by_type putx =
          Ensures-assert (is_exclusive b line) _ (λ r'. R w r'.2) (λ _. keeps.none_made w)

  write_back-keeps :
      (b : BottomCc) (w : W) (wb_line_addr cycle src_id : ℕ) (down : Bool)
      → Ensures (write_back access b w wb_line_addr line cycle src_id down) (λ r. R w r.2)
  write_back-keeps b w wb_line_addr cycle src_id down = go (state_at b line) refl
    where
      put :
          (type : AccessType) (down' : Bool)
          → Ensures {A = ℕ × BottomCc × W × Bool}
              (call_parent access b w (mk_req b wb_line_addr line type cycle src_id no_flags)
                >>= λ r. done (r.0, r.1, r.2, down'))
              (λ r. R w r.2)
      put type down' =
          Ensures->>=
            (call_parent access b w (mk_req b wb_line_addr line type cycle src_id no_flags)) _
            (λ r. R w r.2) (λ r. R w r.2)
            (keeps.call_made _ (mk_req b wb_line_addr line type cycle src_id no_flags) b w refl)
            λ r k. k

      go :
          (s : MesiState)
          → state_at b line ≡ s
          → Ensures (write_back access b w wb_line_addr line cycle src_id down) (λ r. R w r.2)
      go invalid e = rw (e, write_back) (keeps.none_made w)
      go shared e = rw (e, write_back) (put puts down)
      go exclusive e = rw (e, write_back) (put puts down)
      go modified e = rw (e, write_back) (put putx true)

  pub process_eviction-keeps :
      (b : BottomCc) (w : W) (wb_line_addr : ℕ) (lower : Bool) (cycle src_id : ℕ) (down : Bool)
      → Ensures
          (process_eviction access b w wb_line_addr line lower cycle src_id down)
          (λ r. R w r.2)
  unfolding process_eviction
  process_eviction-keeps b w wb_line_addr lower cycle src_id down =
      Ensures-assert (not lower || is_exclusive b line) _ (λ r. R w r.2)
        λ _.
          Ensures->>= _ _ (λ r. R w r.2) (λ r. R w r.2)
            (write_back-keeps (if lower then set_state b line modified else b) w wb_line_addr cycle
              src_id down)
            λ r k. Ensures-assert (is_invalid (state_at r.1 line)) _ (λ r'. R w r'.2) (λ _. k)
