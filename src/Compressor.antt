-- ===== src/Compressor.antt =====
-- src/compressor.h, src/compressor_xor.cpp and src/compressor.cpp: the compressor of the L2 data.
pub mod Lines
pub mod Width
pub mod Xor
pub mod Store
pub mod Pairs
pub mod Perfect
pub mod Rates
pub mod Delta
pub mod Counts
mod Tests
