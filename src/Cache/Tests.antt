-- ===== src/Cache/Tests.antt =====
-- A test and a witness for the records of an access of src/cache.cpp.
use cache_sim.Cache.Records.{Stitched, stitch-Stitched}
use cache_sim.Mesi.Types.{gets, putx}
use cache_sim.Base.{Returns, refl, some, none, [], ◌∷◌, arith, subst, ◌≡◌}
use cache_sim.Cache.{stitch}
use cache_sim.Cache.Forks.{Startable}
use cache_sim.Timing.{EventRecorder, delay_event, TimingRecord}

-- A writeback at event 1 and cycle 12, and an access at event 0 and cycle 20, of a request at cycle 5.
abbrev two_records : EventRecorder
two_records = record {
  tr = record {
    addr = 64;
    req_cycle = 20;
    resp_cycle = 30;
    type = gets;
    start_event = some 0;
    end_event = none;
  };
  events = delay_event 0 ∷ delay_event 0 ∷ [];
}

abbrev wb_record : TimingRecord
wb_record = record {
  addr = 7;
  req_cycle = 12;
  resp_cycle = 30;
  type = putx;
  start_event = some 1;
  end_event = none;
}

stitch-Stitched_example :
    Returns
      (stitch two_records (some 1) wb_record 5)
      (Stitched two_records wb_record 5 (some 1) (some 0))
unfolding delay_event
stitch-Stitched_example =
    stitch-Stitched two_records wb_record 5
      (λ id e.
        let same : 0 ≡ id = cc in
        (omega arith, subst (Startable two_records.events) same (omega arith, refl)))
      (λ id e.
        let same : 1 ≡ id = cc in
        (omega arith, subst (Startable two_records.events) same (omega arith, refl)))
