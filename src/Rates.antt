-- ===== src/Rates.antt =====
-- internal/collector: the rates computed from two readings of cumulative counters.
pub mod Defs
pub mod Parse
pub mod Laws
mod Tests
