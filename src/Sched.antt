-- ===== src/Sched.antt =====
-- The scheduling of simulated cores: src/barrier.h and src/scheduler.h.
pub mod Barrier
pub mod Scheduler
mod Tests
