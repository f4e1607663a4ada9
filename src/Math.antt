-- ===== src/Math.antt =====
-- src/math: the swap arithmetic of the pool families, and the quote that chooses among them.
pub mod V2
pub mod V3
pub mod AeroStable
pub mod Quote
