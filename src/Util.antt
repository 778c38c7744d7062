-- ===== src/Util.antt =====
-- The containers of the simulator: src/intrusive_list.h, src/prio_queue.h and
-- src/event_queue.h.
pub mod InList
pub mod PrioQueue
pub mod EventQueue
mod Tests
