-- ===== src/Timing.antt =====
-- Timing events of src/timing_event.h, and the recorder of src/event_recorder.h. Events are numbers
-- in a store, `events`. The children of an event, which the source keeps in blocks, are a list,
-- oldest first.
pub mod Stitch
pub mod Run
pub mod Parents
mod Tests
pub mod Life
use cache_sim.Mesi.Types.{AccessType}
use cache_sim.Base.{
  if◌then◌else◌, Outcome, failed, done, ◌>>◌, ◌>>=◌, assert, get_or, set, length, ℕ, zero, suc, ◌+◌,
  ◌-◌, ◌%◌, ◌^◌, Bool, true, false, not, ◌||◌, Option, none, some, List, [], ◌∷◌, ◌++◌,
}

pub data EventState : Type 0 where
  ev_invalid ev_none ev_queued ev_running ev_held ev_done : EventState

abbrev pub is_none : EventState → Bool
is_none ev_none = true
is_none _ = false

abbrev pub is_queued : EventState → Bool
is_queued ev_queued = true
is_queued _ = false

-- A `domain` of -1 is `none`.
pub record TimingEvent : Type 0 where
  pub state : EventState
  pub cycle : ℕ
  pub min_start_cycle : ℕ
  pub children : List ℕ
  pub domain : Option ℕ
  pub num_parents : ℕ
  pub pre_delay : ℕ
  pub post_delay : ℕ

-- `TimingEvent(preDelay, postDelay, domain)`; `min_start_cycle` is -1 until it is set.
abbrev pub new_event : ℕ → ℕ → Option ℕ → TimingEvent
new_event pre_delay post_delay domain = record {
  state = ev_none;
  cycle = 0;
  min_start_cycle = 2 ^ 64 - 1;
  children = [];
  domain = domain;
  num_parents = 0;
  pre_delay = pre_delay;
  post_delay = post_delay;
}

-- `DelayEvent(delay)`, whose `delay` is a `uint32_t`.
unfoldable pub delay_event : ℕ → TimingEvent
delay_event delay = new_event (delay % 2 ^ 32) 0 none

abbrev pub no_event : TimingEvent
no_event = record {
  state = ev_invalid;
  cycle = 0;
  min_start_cycle = 0;
  children = [];
  domain = none;
  num_parents = 0;
  pre_delay = 0;
  post_delay = 0;
}

abbrev pub event_at : List TimingEvent → ℕ → TimingEvent
event_at events id = get_or events id no_event

-- `setMinStartCycle`
unfoldable pub set_min_start_cycle : List TimingEvent → ℕ → ℕ → List TimingEvent
set_min_start_cycle events id c =
    set events id (record (event_at events id) { min_start_cycle = c })

abbrev pub is_unset : Option ℕ → Bool
is_unset none = true
is_unset (some x) = false

-- `visitChildren`: a step for each child in turn. The source goes block by block, the newest first,
-- which is another order when an event has more than three children; what uses it here does not
-- depend on the order.
unfoldable pub visit_children :
    (List TimingEvent → ℕ → Outcome (List TimingEvent))
    → List TimingEvent
    → List ℕ
    → Outcome (List TimingEvent)
visit_children f events [] = done events
visit_children f events (child ∷ rest) = f events child >>= λ events'. visit_children f events' rest

-- `propagateDomain`, to a depth of `rounds`.
unfoldable pub propagate_domain : ℕ → ℕ → List TimingEvent → ℕ → Outcome (List TimingEvent)
propagate_domain zero dom events id = failed
propagate_domain (suc n) dom events id =
    assert (is_unset (event_at events id).domain)
    >> visit_children
        (λ evs child.
          if is_unset (event_at evs child).domain
          then propagate_domain n dom evs child
          else done evs)
        (set events id (record (event_at events id) { domain = some dom }))
        (event_at events id).children

-- `if (domain != -1 && childEv->domain == -1) childEv->propagateDomain(domain);` No event stands deeper
-- under another than there are events.
unfoldable pub pass_domain : Option ℕ → List TimingEvent → ℕ → Outcome (List TimingEvent)
pass_domain none events child = done events
pass_domain (some dom) events child =
    if is_unset (event_at events child).domain
    then propagate_domain (length events) dom events child
    else done events

unfoldable pub add_child : List TimingEvent → ℕ → ℕ → Outcome (List TimingEvent)
add_child events id child =
    assert (is_none (event_at events id).state || is_queued (event_at events id).state)
    >> (assert (is_none (event_at events child).state)
        >> (pass_domain (event_at events id).domain
              (set events id (record (event_at events id) {
                children = (event_at events id).children ++ (child ∷ []);
              }))
              child
            >>= λ evs. done (
                set evs child (record (event_at evs child) {
                  num_parents = (event_at evs child).num_parents + 1;
                }))))

pub record TimingRecord : Type 0 where
  pub addr : ℕ
  pub req_cycle : ℕ
  pub resp_cycle : ℕ
  pub type : AccessType
  pub start_event : Option ℕ
  pub end_event : Option ℕ

-- `isValid`
abbrev pub is_recorded : TimingRecord → Bool
is_recorded rec = not (is_unset rec.start_event)

-- `clear`
abbrev pub clear_record : TimingRecord → TimingRecord
clear_record rec = record rec { start_event = none }

-- The record of a recorder, and the store that its events live in.
pub record EventRecorder : Type 0 where
  pub tr : TimingRecord
  pub events : List TimingEvent

unfoldable pub push_record : EventRecorder → TimingRecord → Outcome EventRecorder
push_record r rec =
    assert (not (is_recorded r.tr)) >> (assert (is_recorded rec) >> done (record r { tr = rec }))

abbrev pub pop_record : EventRecorder → TimingRecord × EventRecorder
pop_record r = (r.tr, record r { tr = clear_record r.tr })

abbrev pub has_record : EventRecorder → Bool
has_record r = is_recorded r.tr
