-- ===== src/Cache/Records.antt =====
-- The records of an access: what `stitch` makes of them.
use cache_sim.Cache.Delays.{
  grown, marked, marked-Unchanged, grown-Plain, grown-Startable, add_zero, delays, childless,
}
use cache_sim.Cache.Forks.{Startable, Plain, Childless, link4, Unchanged-Startable, Unchanged-Plain}
use cache_sim.Timing.Stitch.{length-append3}
use cache_sim.Base.{
  Returns, length, ℕ, ◌+◌, ◌-◌, ◌≤◌, ◌<◌, ◌≡◌, ◌∙◌, Option, none, some, [], ◌∷◌, arith,
  Returns-assert, refl, subst, le→leb, leb, not, ◌%◌, ◌^◌,
}
use cache_sim.Cache.{join_records, stitch, stitch_after}
use cache_sim.Timing.{
  push_record, EventRecorder, delay_event, ev_none, TimingRecord, event_at, is_recorded, pop_record,
}

-- The record of an access that ends after a writeback: it starts at the cycle of the request at a new
-- event, behind which stand two delays, one up to the start of each of the two.
pub record Joined (r : EventRecorder) (wb_acc : TimingRecord) (wb_start acc_start req_cycle : ℕ)
    (r' : EventRecorder) : Type 0 where
  pub record_is :
      r'.tr ≡ record r.tr { req_cycle = req_cycle; start_event = some (length r.events) }
  pub three_more : length r'.events ≡ length r.events + 3
  pub startable : (event_at r'.events (length r.events)).state ≡ ev_none
  pub forks :
      (event_at r'.events (length r.events)).children
      ≡ (length r.events + 1) ∷ (length r.events + 2) ∷ []
  pub to_wb : (event_at r'.events (length r.events + 1)).children ≡ wb_start ∷ []
  pub to_acc : (event_at r'.events (length r.events + 2)).children ≡ acc_start ∷ []
  pub no_delay : (event_at r'.events (length r.events)).pre_delay ≡ 0
  pub wb_delay :
      (event_at r'.events (length r.events + 1)).pre_delay ≡ (wb_acc.req_cycle - req_cycle) % 2 ^ 32
  pub acc_delay :
      (event_at r'.events (length r.events + 2)).pre_delay ≡ (r.tr.req_cycle - req_cycle) % 2 ^ 32

join_records-Joined :
    (r : EventRecorder) (wb_acc : TimingRecord) (wb_start acc_start req_cycle : ℕ)
    → Startable r.events wb_start
    → Startable r.events acc_start
    → Returns
        (join_records (pop_record r).1 wb_acc r.tr wb_start acc_start req_cycle)
        (Joined r wb_acc wb_start acc_start req_cycle)
unfolding join_records push_record
join_records-Joined r wb_acc wb_start acc_start req_cycle sw sa =
    let n = length r.events in
    let a = wb_acc.req_cycle - req_cycle in
    let b = r.tr.req_cycle - req_cycle in
    let evs = grown r.events a b in
    let long = length-append3 r.events (delay_event 0) (delay_event a) (delay_event b) in
    let u = marked-Unchanged evs n req_cycle (omega (arith, long)) in
    let m = marked evs n req_cycle in
    let plain : (k : ℕ) → k < 3 → Plain m (n + k) =
      λ k h. Unchanged-Plain evs m (n + k) u (grown-Plain r.events a b k h) in
    let start = subst (Plain m) (add_zero n) (plain 0 (omega arith)) in
    let d = delays r.events a b req_cycle in
    link4 m n (n + 1) (n + 2) wb_start acc_start start (plain 1 (omega arith))
      (plain 2 (omega arith))
      (Unchanged-Startable evs m wb_start u (grown-Startable r.events a b wb_start sw))
      (Unchanged-Startable evs m acc_start u (grown-Startable r.events a b acc_start sa))
      (λ e. absurd (omega (arith, e))) (λ e. absurd (omega (arith, e)))
      (λ e. absurd (omega (arith, e)))
      (
        subst (Childless m) (add_zero n) (childless r.events a b req_cycle 0),
        childless r.events a b req_cycle 1,
        childless r.events a b req_cycle 2,
      )
      _ (Joined r wb_acc wb_start acc_start req_cycle)
      (λ e f. record {
        record_is = refl;
        three_more = f.unchanged.same_length ∙ u.same_length ∙ long;
        startable = f.unchanged.same_state n ∙ start.0.1;
        forks = f.forks;
        to_wb = f.to_wb;
        to_acc = f.to_acc;
        no_delay = f.unchanged.same_delay n ∙ d.0;
        wb_delay = f.unchanged.same_delay (n + 1) ∙ d.1;
        acc_delay = f.unchanged.same_delay (n + 2) ∙ d.2;
      })

-- What becomes of the records of a writeback and of an access, by the start events of the two.
abbrev pub Stitched :
    EventRecorder → TimingRecord → ℕ → Option ℕ → Option ℕ → EventRecorder → Type 0
Stitched r wb_acc req_cycle none o r' = r' ≡ r
Stitched r wb_acc req_cycle (some wb_start) none r' =
    r' ≡ record r { tr = record wb_acc { end_event = none } }
Stitched r wb_acc req_cycle (some wb_start) (some acc_start) r' =
    Joined r wb_acc wb_start acc_start req_cycle r'

-- A record that is there starts no earlier than the request, at an event that can be given parents.
abbrev pub InTime : EventRecorder → TimingRecord → ℕ → Type 0
InTime r rec req_cycle =
    (id : ℕ) → rec.start_event ≡ some id → (req_cycle ≤ rec.req_cycle) × Startable r.events id

stitch_after-Stitched :
    (r : EventRecorder) (wb_acc : TimingRecord) (wb_start req_cycle : ℕ) (o : Option ℕ)
    → r.tr.start_event ≡ o
    → wb_acc.start_event ≡ some wb_start
    → InTime r r.tr req_cycle
    → InTime r wb_acc req_cycle
    → Returns
        (stitch_after r wb_start wb_acc req_cycle o)
        (Stitched r wb_acc req_cycle (some wb_start) o)
unfolding stitch_after push_record
stitch_after-Stitched r wb_acc wb_start req_cycle none f e acc wb =
    Returns-assert (not (is_recorded r.tr)) _ (Stitched r wb_acc req_cycle (some wb_start) none)
      (rw f refl)
      (Returns-assert (is_recorded wb_acc) _ (Stitched r wb_acc req_cycle (some wb_start) none)
        (rw e refl) refl)
stitch_after-Stitched r wb_acc wb_start req_cycle (some acc_start) f e acc wb =
    let Q = Stitched r wb_acc req_cycle (some wb_start) (some acc_start) in
    let w = wb wb_start e in
    let a = acc acc_start f in
    Returns-assert (leb req_cycle wb_acc.req_cycle) _ Q (le→leb _ _ w.0) (
      Returns-assert (leb req_cycle r.tr.req_cycle) _ Q (le→leb _ _ a.0)
        (join_records-Joined r wb_acc wb_start acc_start req_cycle w.1 a.1))

by_start :
    (r : EventRecorder) (wb_acc : TimingRecord) (req_cycle : ℕ) (o : Option ℕ)
    → wb_acc.start_event ≡ o
    → InTime r r.tr req_cycle
    → InTime r wb_acc req_cycle
    → Returns (stitch r o wb_acc req_cycle) (Stitched r wb_acc req_cycle o r.tr.start_event)
unfolding stitch
by_start r wb_acc req_cycle none e acc wb = refl
by_start r wb_acc req_cycle (some wb_start) e acc wb =
    stitch_after-Stitched r wb_acc wb_start req_cycle r.tr.start_event refl e acc wb

-- When the records of a writeback and of the access itself, as far as they are there, start no earlier
-- than the request and at events that can be given parents, no assertion fails: without a writeback
-- the recorder is as before; the record of the writeback alone is kept, with no end event; and two
-- records become one that starts with the request at a new event, whose two children are delays up to
-- the starts of the two, and have these as their only children.
pub stitch-Stitched :
    (r : EventRecorder) (wb_acc : TimingRecord) (req_cycle : ℕ)
    → InTime r r.tr req_cycle
    → InTime r wb_acc req_cycle
    → Returns
        (stitch r wb_acc.start_event wb_acc req_cycle)
        (Stitched r wb_acc req_cycle wb_acc.start_event r.tr.start_event)
stitch-Stitched r wb_acc req_cycle acc wb =
    by_start r wb_acc req_cycle wb_acc.start_event refl acc wb
