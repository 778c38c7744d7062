-- ===== src/Mesi/Types.antt =====
-- memory_hierarchy.h: the types of accesses and invalidations, the MESI states, and the requests.
use cache_sim.Base.{ℕ, Bool, true, false}

-- `MESIState`: I, S, E and M.
pub data MesiState : Type 0 where
  invalid shared exclusive modified : MesiState

pub data AccessType : Type 0 where
  gets getx puts putx : AccessType

pub data InvType : Type 0 where
  inv invx fwd : InvType

abbrev pub is_get : AccessType → Bool
is_get gets = true
is_get getx = true
is_get puts = false
is_get putx = false

abbrev pub is_gets : AccessType → Bool
is_gets gets = true
is_gets getx = false
is_gets puts = false
is_gets putx = false

abbrev pub is_put : AccessType → Bool
is_put puts = true
is_put putx = true
is_put gets = false
is_put getx = false

abbrev pub is_inv : InvType → Bool
is_inv inv = true
is_inv invx = false
is_inv fwd = false

abbrev pub is_invx : InvType → Bool
is_invx inv = false
is_invx invx = true
is_invx fwd = false

abbrev pub is_fwd : InvType → Bool
is_fwd inv = false
is_fwd invx = false
is_fwd fwd = true

-- The tests `*state == I`, and so on.
abbrev pub is_invalid : MesiState → Bool
is_invalid invalid = true
is_invalid shared = false
is_invalid exclusive = false
is_invalid modified = false

abbrev pub is_shared : MesiState → Bool
is_shared shared = true
is_shared invalid = false
is_shared exclusive = false
is_shared modified = false

abbrev pub is_modified : MesiState → Bool
is_modified modified = true
is_modified invalid = false
is_modified shared = false
is_modified exclusive = false

-- `*state == S || *state == E`
abbrev pub is_clean : MesiState → Bool
is_clean shared = true
is_clean exclusive = true
is_clean invalid = false
is_clean modified = false

-- `*state == M || *state == E`
abbrev pub is_owned : MesiState → Bool
is_owned exclusive = true
is_owned modified = true
is_owned invalid = false
is_owned shared = false

-- `MemReq::Flag`, one field for each bit of `flags`.
pub record Flags : Type 0 where
  pub ifetch : Bool
  pub noexcl : Bool
  pub noninclwb : Bool
  pub putx_keepexcl : Bool
  pub prefetch : Bool

abbrev pub no_flags : Flags
no_flags = record {
  ifetch = false;
  noexcl = false;
  noninclwb = false;
  putx_keepexcl = false;
  prefetch = false;
}

-- `MemReq`. The pointer `state` is the requester's line id: it points into the requester's array.
-- The pointer `childLock` is left out.
pub record MemReq : Type 0 where
  pub line_addr : ℕ
  pub type : AccessType
  pub child_id : ℕ
  pub state : ℕ
  pub cycle : ℕ
  pub initial_state : MesiState
  pub src_id : ℕ
  pub flags : Flags

-- `InvReq`. What `writeback` points to is passed beside it, and returned.
pub record InvReq : Type 0 where
  pub line_addr : ℕ
  pub type : InvType
  pub cycle : ℕ
  pub src_id : ℕ
