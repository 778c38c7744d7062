-- ===== src/Mesi/Bottom/Evict.antt =====
-- `MESIBottomCC::processEviction` over any parent that serves the requests which fit their lines.
use cache_sim.Mesi.Types.{
  no_flags, MesiState, is_modified, AccessType, invalid, shared, exclusive, modified, getx, putx,
  gets, puts, is_put, MemReq,
}
use cache_sim.Mesi.Parent.{Serves, Answer, Fits, Granted}
use cache_sim.Base.{
  ◌>>=◌, Returns, length, ℕ, ◌^◌, ◌<◌, ◌≡◌, refl, Bool, true, ◌||◌, Returns->>=, done, false, arith,
  length-set, get_or-set_self, ap, ◌∙◌,
}
use cache_sim.Mesi.Bottom.{
  BottomCc, state_at, process_eviction, mk_req, Parents, call_parent, is_exclusive, write_back,
  set_state,
}

-- The line is dirty if it is in M, or if the level below wrote it back on the way.
abbrev pub is_dirty : Bool → MesiState → Bool
is_dirty lower s = lower || is_modified s

pub record Evicted {W : Type 0} (line : ℕ) (lower down : Bool) (b : BottomCc)
    (r : ℕ × BottomCc × W × Bool) : Type 0 where
  pub gone : state_at r.1 line ≡ invalid
  pub same_lines : length r.1.array ≡ length b.array
  pub downgrade : r.3 ≡ (down || is_dirty lower (state_at b line))

put-Granted :
    (type : AccessType) (s : MesiState) → is_put type ≡ true → Granted type s → s ≡ invalid
put-Granted gets s p g = cc
put-Granted getx s p g = cc
put-Granted puts s p g = g
put-Granted putx s p g = g

module _ {W : Type 0} (access : Parents W) (parent : Serves access) where
  call_parent-Answer :
      (b : BottomCc) (w : W) (line_addr line : ℕ) (type : AccessType) (cycle src_id : ℕ)
      → cycle < 2 ^ 63
      → line < length b.array
      → Fits type (state_at b line)
      → Returns
          (call_parent access b w (mk_req b line_addr line type cycle src_id no_flags))
          (Answer (mk_req b line_addr line type cycle src_id no_flags) b)
  call_parent-Answer b w line_addr line type cycle src_id early in_range fits =
      parent.serve _ _ b w early in_range refl fits

  put-Evicted :
      (b : BottomCc) (w : W) (line_addr line : ℕ) (type : AccessType) (cycle src_id : ℕ)
      (down down' : Bool)
      → is_put type ≡ true
      → cycle < 2 ^ 63
      → line < length b.array
      → Fits type (state_at b line)
      → down' ≡ (down || is_modified (state_at b line))
      → Returns
          (call_parent access b w (mk_req b line_addr line type cycle src_id no_flags) >>= λ r.
            done (r.0, r.1, r.2, down'))
          (Evicted line false down b)
  put-Evicted b w line_addr line type cycle src_id down down' put early in_range fits down_eq =
      Returns->>= _ _ (Answer req b) (Evicted line false down b)
        (call_parent-Answer b w line_addr line type cycle src_id early in_range fits)
        λ r ans. record {
          gone = put-Granted type (state_at r.1 line) put ans.granted;
          same_lines = ans.same_lines;
          downgrade = down_eq;
        }
    where
      req : MemReq
      req = mk_req b line_addr line type cycle src_id no_flags

  write_back-Evicted :
      (b : BottomCc) (w : W) (wb_line_addr line cycle src_id : ℕ) (down : Bool)
      → cycle < 2 ^ 63
      → line < length b.array
      → Returns
          (write_back access b w wb_line_addr line cycle src_id down)
          (Evicted line false down b)
  write_back-Evicted b w wb_line_addr line cycle src_id down early in_range =
      go (state_at b line) refl
    where
      go :
          (s : MesiState)
          → state_at b line ≡ s
          → Returns
              (write_back access b w wb_line_addr line cycle src_id down)
              (Evicted line false down b)
      go invalid e =
          rw (e, write_back) (record { gone = e; same_lines = refl; downgrade = ground arith })
      go shared e =
          rw (e, write_back)
            (put-Evicted b w wb_line_addr line puts cycle src_id down down refl early in_range
              (rw e refl) (ground arith))
      go exclusive e =
          rw (e, write_back)
            (put-Evicted b w wb_line_addr line puts cycle src_id down down refl early in_range
              (rw e refl) (ground arith))
      go modified e =
          rw (e, write_back)
            (put-Evicted b w wb_line_addr line putx cycle src_id down true refl early in_range e
              (ground arith))

  -- Over a parent that serves, an eviction before cycle 2 ^ 63 trips no assertion, if a lower level
  -- writes back only under an owned line. The line is gone afterwards, and `downgrade` is raised
  -- exactly when the line was in M or written back from below.
  pub process_eviction_lem :
      (b : BottomCc) (w : W) (wb_line_addr line : ℕ) (lower : Bool) (cycle src_id : ℕ) (down : Bool)
      → cycle < 2 ^ 63
      → line < length b.array
      → (lower ≡ true → is_exclusive b line ≡ true)
      → Returns
          (process_eviction access b w wb_line_addr line lower cycle src_id down)
          (Evicted line lower down b)
  unfolding process_eviction
  process_eviction_lem b w wb_line_addr line true cycle src_id down early in_range owned =
      rw (owned refl) (
        Returns->>= _ _ (Evicted line false down dirty) (Evicted line true down b)
          (write_back-Evicted dirty w wb_line_addr line cycle src_id down early
            (rw (length-set b.array line modified) in_range))
          λ r ev. rw ev.gone (record {
            gone = ev.gone;
            same_lines = ev.same_lines ∙ length-set b.array line modified;
            downgrade =
                ev.downgrade
                ∙ ap (λ s. down || is_modified s)
                    (get_or-set_self b.array line modified invalid in_range);
          }))
    where
      dirty : BottomCc
      dirty = set_state b line modified
  process_eviction_lem b w wb_line_addr line false cycle src_id down early in_range owned =
      Returns->>= _ _ (Evicted line false down b) (Evicted line false down b)
        (write_back-Evicted b w wb_line_addr line cycle src_id down early in_range)
        λ r ev. rw ev.gone ev
