-- ===== src/Mesi.antt =====
-- src/memory_hierarchy.h, src/coherence_ctrls.h and src/coherence_ctrls.cpp: the MESI controllers.
pub mod Types
pub mod Bottom
pub mod Race
pub mod Parent
pub mod Memory
pub mod Top
pub mod Ctrl
mod Tests
mod Caches
