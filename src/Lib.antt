-- ===== src/Lib.antt =====
-- CacheSim (the zsim simulator with a line compressor in its caches): a model of the core of its
-- memory hierarchy, translated from the files under src/, with the theorems that make it correct.
--
-- A cache has a tag array, a replacement policy and a coherence controller. An access goes from a
-- cache to its parent, an invalidation from a cache to those below it; the bottom half of a
-- controller speaks to the parent, and the top half to the caches below. Each half is modelled
-- over an interface that stands for the other side, and a theorem says what each half gives to a
-- partner that meets its interface.
--
-- The files, and the code that each models:
-- - Base: Boolean tests on numbers, lists as arrays, and `Outcome`, the result of code whose
--   `assert` or `panic` ends the simulation.
-- - Mesi.Types: the enumerations and requests of src/memory_hierarchy.h.
-- - Mesi.Bottom: `MESIBottomCC` of src/coherence_ctrls.h and src/coherence_ctrls.cpp, with the
--   parents as an argument, `Parents`; Mesi.Parent says what it relies on them for.
-- - Mesi.Top: `MESITopCC`, with the caches below as a record of calls, `Children`; Mesi.Top.Loop
--   says what it relies on them for. Mesi.Top.Coherent is the invariant that ties an entry of the
--   directory to the states of the caches below, and Mesi.Top.Reach the histories of a line.
-- - Mesi.Race: `CheckForMESIRace`.
-- - Mesi.Ctrl: `MESICC` and `MESITerminalCC`, the two halves put together. Mesi.Ctrl.Nested is the
--   invariant that ties the state of a line here, its entry of the directory and the caches below.
-- - Cache: `Cache` of src/cache.h and src/cache.cpp, over a controller and an array; Cache.Forks,
--   Cache.Delays and Cache.Records are about the records that an access leaves.
-- - Timing: the events of src/timing_event.h and the record of src/event_recorder.h. Timing.Run
--   has the methods that change the state of one event, and Timing.Life its histories.
-- - Mesi.Memory: `SimpleMemory` of src/mem_ctrls.cpp.
-- - Repl: the policies of src/repl_policies.h, each in a module of its own: `LRUReplPolicy` (Lru),
--   `TreeLRUReplPolicy` (Tree), `NRUReplPolicy` (Nru), `RandReplPolicy` (Rand), `LFUReplPolicy`
--   (Lfu) and `ProfViolReplPolicy` (ProfViol).
-- - Array.SetAssoc: the tags of `SetAssocArray` of src/cache_arrays.h and src/cache_arrays.cpp.
-- - Compressor: src/compressor_xor.cpp: the widths of bytes and lines, the xor of lines, the
--   arrays that hold them, the pairing of lines in `compare` and `compare_perfect`, and the sums
--   of its rates; Compressor.Delta is `compress` of src/compressor.cpp, and Compressor.Counts the
--   counters there.
-- - Sched.Barrier: `Barrier` of src/barrier.h, which lets a bounded number of threads run and ends
--   a phase when each had its turn. Sched.Barrier.Sound is its invariant, Sched.Barrier.Awake what
--   holds between two calls, and Sched.Barrier.Run its histories.
-- - Sched.Scheduler: `Scheduler` of src/scheduler.h. Sched.Scheduler holds its state, `schedule`,
--   `deschedule`, `schedThread` and `schedContext`, Sched.Scheduler.Calls its `start`, `join`,
--   `leave` and `sync`, and Sched.Scheduler.Phase `callback`, `schedTick`, `finish` and the
--   sleeps. A call is one step, whose last part is the call of the barrier that it gives back.
--   Sched.Scheduler.Fits is the invariant, Sched.Scheduler.Deadlines is about the sleeping
--   threads, Sched.Scheduler.Events and Sched.Scheduler.Sessions about its histories, and the
--   other modules prove what one call does.
-- - Util: the list of src/intrusive_list.h, over a store of nodes, the queue of src/prio_queue.h,
--   and the events of src/event_queue.h.
--
-- Bounds. A `uint32_t` or `uint64_t` that the code adds to or subtracts from keeps its wrap-around
-- written out; cycles are below 2 ^ 63 where a theorem needs that no sum wraps. Profiling counters
-- and the LRU clock, which counts accesses, have no bound. A pointer to the state of a line is the
-- number of that line, and a flag that is passed by pointer is an argument and a result. Loops go
-- over a list, or over a number of rounds that the code fixes. The search of the tree policy runs
-- on fuel, one round for each candidate, which is enough since a round at least drops one; and
-- `dequeue` of the queue, on any number of rounds that its caller gives. A domain is passed on as
-- deep as there are events, since no event stands under itself. The threads of a barrier are
-- numbers without bound, where the source has an array of 2048, and their counts do not wrap since
-- the run list holds each once.
--
-- Parameters: what the scheduler does when a phase ends, the hash function of an array, the
-- replacement policy that it calls, the random numbers, the parents and the children of a
-- controller, and the rest of the system that they change.
--
-- Not modelled: locks, since an operation runs as one step; the filter cache; the partitioned
-- policies and the other arrays; what the end of an event does to its children; cores, DRAM and
-- the prefetcher; the fake leaves, the futex matching and the watchdog of the scheduler; and all
-- that is input, output, instrumentation or another project's library.
pub mod Base
pub mod Mesi
pub mod Array
pub mod Repl
pub mod Compressor
pub mod Util
pub mod Sched
pub mod Timing
pub mod Cache
