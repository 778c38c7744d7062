-- ===== src/Mesi/Caches.antt =====
-- Two caches with one line each, below a directory entry, and below a whole controller: the theorems
-- on the top controller and on `MESICC`, at concrete accesses.
-- concrete accesses.
use cache_sim.Mesi.Ctrl.Nested.{Nested}
use cache_sim.Mesi.Ctrl.Inv.{Invalid, process_inv-Invalid}
use cache_sim.Mesi.Memory.{simple_memory}
use cache_sim.Mesi.Ctrl.{process_inv, Forward, MesiCc}
use cache_sim.Mesi.Top.Reach.{Reachable-single_writer, Reachable, write_step, access_step, fresh}
use cache_sim.Mesi.Top.Coherent.{agrees, Coherent}
use cache_sim.Mesi.Top.Count.{count}
use cache_sim.Mesi.Top.Loop.{Obeys, Invalidated}
use cache_sim.Mesi.Top.Access.{Served}
use cache_sim.Mesi.Top.Recall.{send_invalidates-Recalled, Recalled}
use cache_sim.Mesi.Top.Protocol.{access_entry-Served}
use cache_sim.Mesi.Bottom.Inval.{process_inval_lem, inval_state}
use cache_sim.Mesi.Types.{
  is_modified, exclusive, modified, no_flags, gets, MesiState, getx, invx, invalid, InvReq, inv,
  MemReq,
}
use cache_sim.Mesi.Bottom.{BottomCc, state_at, process_inval, zero_counters, Parents}
use cache_sim.Mesi.Top.{
  access_entry, set_sharer, send_invalidates, sharer, Entry, clear_entry, sole_owner, Children,
  TopCc,
}
use cache_sim.Base.{
  ◌==◌, ==-ne, if◌then◌else◌, Returns, ◌>>=◌, done, Returns->>=, length, ℕ, zero, suc, ◌<◌, ◌≡◌,
  refl, inl, Bool, true, false, ◌||◌, [], ◌∷◌, arith, failed,
}

-- The states of the line in the caches below, by number.
abbrev World : Type 0
World = ℕ → MesiState

-- A bottom controller with one line.
abbrev one_line : MesiState → BottomCc
one_line s = record {
  array = s ∷ [];
  parent_rtts = [];
  self_id = 0;
  non_inclusive_hack = false;
  prof = zero_counters;
}

abbrev put_state : ℕ → MesiState → World → World
put_state c s w j = if c == j then s else w j

abbrev caches : Children World
caches = record {
  invalidate = λ c req wb w. process_inval (one_line (w c)) 0 req.type wb >>= λ r.
      done (req.cycle, r.1, put_state c (state_at r.0 0) w);
  read_state = λ c w. w c;
  write_state = put_state;
}

abbrev dirty_at : ℕ → World → Bool
dirty_at c w = is_modified (w c)

caches-Obeys : Obeys caches 2 dirty_at
caches-Obeys = record {
  invalidated = λ c req wb w h real may.
      Returns->>= (process_inval (one_line (w c)) 0 req.type wb) _
        (λ r.
          (state_at r.0 0 ≡ inval_state req.type (w c))
          × (r.1 ≡ (wb || is_modified (w c)))
          × (length r.0.array ≡ 1))
        (Invalidated caches dirty_at c req wb w)
        (process_inval_lem (one_line (w c)) 0 0 req.type wb (omega arith) may)
        λ r ok. record {
          flag = ok.1;
          states = λ j. ground (arith, ok.0);
          others = λ j ne. rw (==-ne c j ne) refl;
        };
  written = λ c s w h j. refl;
}

-- Cache 0 has the line in M, and cache 1 does not have it.
abbrev world : World
world j = if j == 0 then modified else invalid

abbrev entry : Entry
entry = record { num_sharers = 1; sharers = true ∷ false ∷ []; exclusive = true }

entry-agrees : (j : ℕ) → j < 2 → agrees (sharer entry j) (sole_owner entry) (world j) ≡ true
entry-agrees zero h = refl
entry-agrees (suc zero) h = refl
entry-agrees (suc (suc j)) h = absurd (omega arith)

entry-Coherent : Coherent caches 2 entry world
unfolding count
entry-Coherent = record {
  counts = record { small = omega arith; roomy = omega arith; counted = refl };
  alone = λ x. omega arith;
  agree = entry-agrees;
}

-- Cache 1 asks for the line with GETX: cache 0 gives it up, and the flag is raised.
access_entry_example :
    Returns
      (access_entry caches 2 (3 ∷ 4 ∷ []) entry 64 getx 1 true false world 5 0 no_flags)
      (Served caches 2 (3 ∷ 4 ∷ []) dirty_at caches-Obeys getx no_flags 1 5 entry false world)
access_entry_example =
    access_entry-Served caches 2 (3 ∷ 4 ∷ []) dirty_at caches-Obeys entry 64 getx 1 true false world
      5 0 no_flags entry-Coherent (omega arith) (inl refl) (λ e. refl)

send_invalidates_example :
    Returns
      (send_invalidates caches 2
        (3 ∷ 4 ∷ [])
        entry
        (record { line_addr = 64; type = invx; cycle = 5; src_id = 0 })
        false
        world)
      (Recalled caches 2 (3 ∷ 4 ∷ []) dirty_at caches-Obeys invx 5 entry false world)
send_invalidates_example =
    send_invalidates-Recalled caches 2 (3 ∷ 4 ∷ []) dirty_at caches-Obeys entry 64 invx false world
      5 0 entry-Coherent refl

abbrev nobody : World
nobody j = invalid

-- Cache 0 reads a line that nobody holds, and then writes to it.
abbrev after_read : Entry
after_read = record (set_sharer clear_entry 0 true) { exclusive = true; num_sharers = 1 }

written-Reachable :
    Reachable caches 2 (3 ∷ 4 ∷ []) after_read (put_state 0 modified (put_state 0 exclusive nobody))
unfolding access_entry
written-Reachable =
    write_step
      (access_step (fresh nobody (omega arith) (λ j h. refl)) 64 gets 0 true false 5 0 no_flags
        (5, after_read, false, put_state 0 exclusive nobody) (omega arith) refl (λ e. refl) refl)
      0 (omega arith) refl

Reachable-single_writer_example : put_state 0 modified (put_state 0 exclusive nobody) 1 ≡ invalid
Reachable-single_writer_example =
    Reachable-single_writer caches 2 (3 ∷ 4 ∷ []) dirty_at caches-Obeys after_read
      (put_state 0 modified (put_state 0 exclusive nobody)) 0 1 written-Reachable (omega arith)
      (omega arith) (λ e. cc) refl

-- A whole controller over the two caches, under a memory.
abbrev owner : MesiCc
owner = record {
  bcc = record {
    array = exclusive ∷ [];
    parent_rtts = 10 ∷ [];
    self_id = 0;
    non_inclusive_hack = false;
    prof = zero_counters;
  };
  tcc = record { array = entry ∷ []; children_rtts = 3 ∷ 4 ∷ []; non_inclusive_hack = false };
  non_inclusive_hack = false;
}

abbrev above : Parents (TopCc × World)
above = simple_memory 100

abbrev no_forward : Forward (TopCc × World)
no_forward p req s b w = failed

abbrev take_all : InvReq
take_all = record { line_addr = 64; type = inv; cycle = 5; src_id = 0 }

-- An INV from above: the flag is raised for the dirty copy below.
process_inv-Invalid_example :
    Returns
      (process_inv caches above no_forward owner world take_all 0 false 5)
      (Invalid caches 2 dirty_at owner world take_all 0 5 false)
process_inv-Invalid_example =
    process_inv-Invalid caches above no_forward owner dirty_at caches-Obeys world take_all 0 5 false
      refl (omega arith) (omega arith) refl entry-Coherent

-- Cache 1 asks for the line that cache 0 has in M.
abbrev take_over : MemReq
take_over = record {
  line_addr = 64;
  type = getx;
  child_id = 1;
  state = 0;
  cycle = 5;
  initial_state = invalid;
  src_id = 0;
  flags = no_flags;
}
