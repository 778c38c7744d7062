-- ===== src/Array.antt =====
-- src/cache_arrays.h
pub mod SetAssoc
mod Tests
