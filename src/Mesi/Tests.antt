-- ===== src/Mesi/Tests.antt =====
-- A cache of two lines below a memory of 100 cycles: the theorems on the bottom controller, at
-- concrete accesses.
use cache_sim.Mesi.Bottom.Hits.{process_access-local}
use cache_sim.Mesi.Bottom.Evict.{Evicted, process_eviction_lem}
use cache_sim.Mesi.Bottom.Serve.{Accessed, process_access_lem}
use cache_sim.Mesi.Bottom.Inval.{process_inval-failed, process_inval_lem}
use cache_sim.Mesi.Memory.{simple_memory-Serves, simple_memory}
use cache_sim.Mesi.Types.{invx, MemReq, modified, getx, shared, putx, no_flags}
use cache_sim.Mesi.Parent.{Serves}
use cache_sim.Mesi.Bottom.{
  get_parent_id, state_at, fetch, process_access, process_eviction, BottomCc, Parents,
  zero_counters, process_inval, mk_req,
}
use cache_sim.Mesi.Race.{
  check_for_mesi_race-Settled, check_for_mesi_race, untouched, Settled, downgrade,
}
use cache_sim.Base.{failed, Returns, length, ◌≡◌, refl, true, false, [], ◌∷◌, arith}

-- Line 0 is modified, and line 1 shared.
abbrev cache : BottomCc
cache = record {
  array = modified ∷ shared ∷ [];
  parent_rtts = 10 ∷ [];
  self_id = 0;
  non_inclusive_hack = false;
  prof = zero_counters;
}

abbrev memory : Parents (Unit {0})
memory = simple_memory 100

memory-Serves : Serves memory
memory-Serves = simple_memory-Serves (Unit {0}) 100 (omega arith) (omega arith)

-- The upgrade of a shared line asks the memory, which takes 100 cycles, and the network 10.
upgrade_run : Returns (process_access memory cache tt 64 1 getx 5 0 no_flags) (λ r. r.0 ≡ 115)
unfolding process_access fetch simple_memory get_parent_id
upgrade_run = refl

simple_memory-Serves_example : Serves {W = Unit {0}} (simple_memory 100)
simple_memory-Serves_example = simple_memory-Serves (Unit {0}) 100 (omega arith) (omega arith)

process_access_example :
    Returns (process_access memory cache tt 64 1 getx 5 0 no_flags) (Accessed getx 5 1 cache)
process_access_example =
    process_access_lem memory memory-Serves cache tt 64 1 getx 5 0 no_flags (omega arith)
      (omega arith) refl tt

process_eviction_example :
    Returns (process_eviction memory cache tt 64 0 true 5 0 false) (Evicted 0 true false cache)
process_eviction_example =
    process_eviction_lem memory memory-Serves cache tt 64 0 true 5 0 false (omega arith)
      (omega arith) (λ e. refl)

process_inval_example :
    Returns
      (process_inval cache 0 invx false)
      (λ (b', wb'). (state_at b' 1 ≡ shared) × (wb' ≡ true) × (length b'.array ≡ 2))
process_inval_example = process_inval_lem cache 0 1 invx false (omega arith) refl

process_inval-failed_example : process_inval cache 1 invx false ≡ failed
process_inval-failed_example = process_inval-failed cache 1 invx false (λ e. cc)

abbrev upgrade : MemReq
upgrade = mk_req cache 64 1 getx 5 0 no_flags

-- A PUTX that met an INVX on its way becomes a PUTS.
check_for_mesi_race_example : Returns (check_for_mesi_race putx shared modified) (Settled shared)
check_for_mesi_race_example =
    check_for_mesi_race-Settled putx modified shared refl (downgrade untouched refl)

process_access-local_example :
    (process_access memory cache tt 64 0 getx 5 0 no_flags
      ≡ process_access (simple_memory 7) cache tt 64 0 getx 5 0 no_flags)
    × Returns
        (process_access memory cache tt 64 0 getx 5 0 no_flags)
        (λ r. (r.0 ≡ 5) × (r.2 ≡ tt) × (state_at r.1 1 ≡ shared))
process_access-local_example =
    process_access-local memory (simple_memory 7) cache tt 64 0 1 getx 5 0 no_flags (omega arith)
      refl
