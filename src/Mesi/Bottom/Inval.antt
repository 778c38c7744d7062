-- ===== src/Mesi/Bottom/Inval.antt =====
-- `MESIBottomCC::processInval` and `processWritebackOnAccess`: what the parent can do to a line.
use cache_sim.Mesi.Types.{is_owned, inv, invx, fwd, is_modified, modified, exclusive}
use cache_sim.Base.{
  failed, Returns, length, ◌<◌, ◌≡◌, true, false, ◌||◌, arith, length-set, refl, ◌==◌,
  if◌then◌else◌, get_or-set,
}
use cache_sim.Mesi.Bottom.{
  BottomCc, state_at, process_inval, InvType, ℕ, Bool, MesiState, is_invalid, invalid, shared,
}

-- The request that a parent may send for a line in this state.
abbrev pub MayInval : InvType → MesiState → Type 0
MayInval inv s = is_invalid s ≡ false
MayInval invx s = is_owned s ≡ true
MayInval fwd s = s ≡ shared

-- The state that it leaves.
abbrev pub inval_state : InvType → MesiState → MesiState
inval_state inv s = invalid
inval_state invx s = shared
inval_state fwd s = s

valid_of_owned : (s : MesiState) → is_owned s ≡ true → is_invalid s ≡ false
valid_of_owned invalid e = cc
valid_of_owned shared e = refl
valid_of_owned exclusive e = refl
valid_of_owned modified e = refl

-- A permitted invalidation succeeds, moves its line to the state that it asks for and no other
-- line, and raises the writeback flag exactly when the line was dirty.
pub process_inval_lem :
    (b : BottomCc) (line j : ℕ) (type : InvType) (wb : Bool)
    → line < length b.array
    → MayInval type (state_at b line)
    → Returns (process_inval b line type wb) (λ (b', wb').
      (state_at b' j ≡ (if line == j then inval_state type (state_at b line) else state_at b j))
      × (wb' ≡ (wb || is_modified (state_at b line)))
      × (length b'.array ≡ length b.array))
unfolding process_inval
process_inval_lem b line j inv wb h may =
    rw may (get_or-set b.array line j invalid invalid h, refl, length-set b.array line invalid)
process_inval_lem b line j invx wb h may =
    rw (valid_of_owned (state_at b line) may, may)
      (get_or-set b.array line j shared invalid h, refl, length-set b.array line shared)
process_inval_lem b line j fwd wb h may = rw may (ground (arith, may), ground arith, refl)

-- Any other invalidation stops the simulation.
pub process_inval-failed :
    (b : BottomCc) (line : ℕ) (type : InvType) (wb : Bool)
    → ¬ MayInval type (state_at b line)
    → process_inval b line type wb ≡ failed
unfolding process_inval
process_inval-failed b line inv wb no_right = ground arith
process_inval-failed b line invx wb no_right = ground arith
process_inval-failed b line fwd wb no_right = ground arith
