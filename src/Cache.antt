-- ===== src/Cache.antt =====
-- `Cache` of src/cache.h and src/cache.cpp: a coherence controller, an array and a recorder put
-- together. The virtual classes `CC` and `CacheArray` are records of calls. `is_l2` is the test of
-- the name that picks the second-level methods of the array. A null recorder is one that holds no
-- record.
pub mod Forks
pub mod Delays
pub mod Records
mod Tests
use cache_sim.Sched.Scheduler.Calls.{start}
use cache_sim.Mesi.Types.{puts, putx, is_get, MemReq, gets, getx, InvReq, AccessType}
use cache_sim.Base.{
  leb, if◌then◌else◌, Outcome, assert, done, ◌>>◌, ◌>>=◌, failed, length, ℕ, ◌+◌, ◌-◌, ◌%◌, ◌^◌,
  Bool, false, Option, none, some, [], ◌∷◌, ◌++◌,
}
use cache_sim.Timing.{
  pop_record, set_min_start_cycle, add_child, has_record, push_record, TimingRecord, EventRecorder,
  delay_event,
}

-- What the cache calls of its controller. The cycle and the `downgrade` flag of `process_eviction` are
-- not used. `end_access` gives up the controller's locks.
pub record Controller (C : Type 0) : Type 0 where
  pub start_access : C → MemReq → Outcome (C × Bool × AccessType)
  pub should_allocate : C → AccessType → Outcome Bool
  pub process_eviction : C → EventRecorder → MemReq → ℕ → ℕ → ℕ → Outcome (C × EventRecorder)
  pub process_access : C → EventRecorder → MemReq → Option ℕ → ℕ → Outcome (ℕ × C × EventRecorder)
  pub end_access : C → MemReq → C
  pub process_inv : C → InvReq → ℕ → Bool → ℕ → Outcome (ℕ × C × Bool)

-- The counters of the file, and the marks that the second-level array reads.
pub record Globals : Type 0 where
  pub l1 : ℕ
  pub evicted_line : ℕ
  pub dirty_wb : ℕ
  pub clean_wb : ℕ
  pub load : ℕ
  pub store : ℕ

-- What it calls of its array, whose policy may ask the controller, and which reads the marks of the cache. `preinsert` answers the line to
-- replace and the address that it holds.
pub record CacheArray (A C : Type 0) : Type 0 where
  pub lookup : A → C → ℕ → Bool → Option ℕ × A
  pub preinsert : A → C → ℕ → A × ℕ × ℕ
  pub postinsert : A → C → Globals → ℕ → ℕ → A

pub record Cache (A C : Type 0) : Type 0 where
  pub array : A
  pub cc : C
  pub recorder : EventRecorder
  pub globals : Globals
  pub acc_lat : ℕ
  pub inv_lat : ℕ
  pub is_l2 : Bool

unfoldable pub count_access : Globals → AccessType → Globals
count_access g putx = record g { dirty_wb = g.dirty_wb + 1; l1 = 1 }
count_access g puts = record g { clean_wb = g.clean_wb + 1; evicted_line = 0; l1 = 0 }
count_access g gets = record g { load = g.load + 1; evicted_line = 0; l1 = 0 }
count_access g getx = record g { store = g.store + 1; evicted_line = 0; l1 = 0 }

-- Two records of one access become one that starts both: a start event, and a delay before each.
unfoldable pub join_records :
    EventRecorder → TimingRecord → TimingRecord → ℕ → ℕ → ℕ → Outcome EventRecorder
join_records r wb_acc acc wb_start acc_start req_cycle =
    let start = length r.events in
    let d_wb = length r.events + 1 in
    let d_acc = length r.events + 2 in
    let evs =
      r.events
      ++ (delay_event 0
          ∷ delay_event (wb_acc.req_cycle - req_cycle)
          ∷ delay_event (acc.req_cycle - req_cycle)
          ∷ []) in
    let marked =
      set_min_start_cycle
        (set_min_start_cycle (set_min_start_cycle evs start req_cycle) d_wb req_cycle) d_acc
        req_cycle in
    add_child marked start d_wb >>= λ e1. add_child e1 d_wb wb_start >>= λ e2.
    add_child e2 start d_acc >>= λ e3. add_child e3 d_acc acc_start >>= λ e4.
    push_record (record r { events = e4 })
      (record acc { req_cycle = req_cycle; start_event = some start })

-- What becomes of the records of a writeback and of the access itself, by the start event of the
-- second.
unfoldable pub stitch_after :
    EventRecorder → ℕ → TimingRecord → ℕ → Option ℕ → Outcome EventRecorder
stitch_after r wb_start wb_acc req_cycle none = push_record r (record wb_acc { end_event = none })
stitch_after r wb_start wb_acc req_cycle (some acc_start) =
    let (acc, popped) = pop_record r in
    assert (leb req_cycle wb_acc.req_cycle)
    >> (assert (leb req_cycle acc.req_cycle)
        >> join_records popped wb_acc acc wb_start acc_start req_cycle)

unfoldable pub stitch : EventRecorder → Option ℕ → TimingRecord → ℕ → Outcome EventRecorder
stitch r none wb_acc req_cycle = done r
stitch r (some wb_start) wb_acc req_cycle =
    stitch_after r wb_start wb_acc req_cycle r.tr.start_event

module _ {A C : Type 0} (ctrl : Controller C) (arr : CacheArray A C) (arr_l2 : CacheArray A C) where
  -- The array's methods under the test of the name.
  abbrev pub methods : Cache A C → CacheArray A C
  methods s = if s.is_l2 then arr_l2 else arr

  -- Room for a new line: the old one is evicted, and the new one comes into its place.
  unfoldable pub make_room : Cache A C → MemReq → ℕ → Outcome (Option ℕ × Cache A C)
  make_room s req cycle =
      let (a, line_id, wb_line_addr) = (methods s).preinsert s.array s.cc req.line_addr in
      ctrl.process_eviction s.cc s.recorder req wb_line_addr line_id cycle >>= λ (c, rec). done (
        some line_id,
        record s {
          array = (methods s).postinsert a c s.globals req.line_addr line_id;
          cc = c;
          recorder = rec;
        },
      )

  unfoldable pub on_miss : Cache A C → MemReq → ℕ → Option ℕ → Outcome (Option ℕ × Cache A C)
  on_miss s req cycle (some line_id) = done (some line_id, s)
  on_miss s req cycle none = ctrl.should_allocate s.cc req.type >>= λ room.
      if room then make_room s req cycle else done (none, s)

  -- The controller's part, between the two looks at the recorder.
  unfoldable pub serve_access : Cache A C → MemReq → ℕ → Option ℕ → Outcome (ℕ × Cache A C)
  serve_access s req cycle line_id =
      let wb_acc = s.recorder.tr in
      let quiet = if has_record s.recorder then (pop_record s.recorder).1 else s.recorder in
      ctrl.process_access s.cc quiet req line_id cycle >>= λ (resp, c, rec).
      stitch rec wb_acc.start_event wb_acc req.cycle >>= λ rec'.
      done (resp, record s { cc = c; recorder = rec' })

  unfoldable pub run_access : Cache A C → MemReq → Outcome (ℕ × Cache A C)
  run_access s req =
      let (line_id, a) = (methods s).lookup s.array s.cc req.line_addr (is_get req.type) in
      let cycle = (req.cycle + s.acc_lat) % 2 ^ 64 in
      on_miss (record s { array = a; globals = count_access s.globals req.type }) req cycle line_id
      >>= λ (line_id', s'). serve_access s' req cycle line_id'

  unfoldable pub access : Cache A C → MemReq → Outcome (ℕ × Cache A C)
  access s req = ctrl.start_access s.cc req >>= λ (c, skip, type).
      let req' = record req { type = type } in
      (if skip
        then done (req.cycle, record s { cc = c })
        else run_access (record s { cc = c }) req')
      >>= λ (resp, s').
          assert (leb req.cycle resp) >> done (resp, record s' { cc = ctrl.end_access s'.cc req' })

  -- `finishInvalidate`, with the flag `*req.writeback`.
  unfoldable pub finish_invalidate : Cache A C → InvReq → Bool → Outcome (ℕ × Bool × Cache A C)
  finish_invalidate s req writeback =
      let (line_id, a) = arr.lookup s.array s.cc req.line_addr false in
      elim line_id [
        | none ↦ failed
        | some id ↦
            ctrl.process_inv s.cc req id writeback ((req.cycle + s.inv_lat) % 2 ^ 64)
            >>= λ (resp, c, wb). done (resp, wb, record s { array = a; cc = c })
      ]
