-- ===== src/Repl.antt =====
-- src/repl_policies.h: replacement policies.
pub mod Lru
pub mod Tree
pub mod Nru
pub mod Rand
pub mod Lfu
pub mod ProfViol
mod Tests
