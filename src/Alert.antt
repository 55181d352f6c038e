-- ===== src/Alert.antt =====
-- internal/alert: the threshold alert engine.
pub mod Types
pub mod Defs
pub mod Evaluate
pub mod Clocks
pub mod Debounce
pub mod Sustained
pub mod Events
pub mod Prune
pub mod Keys
pub mod Reporting
mod Tests
