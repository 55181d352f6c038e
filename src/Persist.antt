-- ===== src/Persist.antt =====
-- internal/collector/persist.go: the binary snapshot of the metric history, and its restoration.
pub mod Types
pub mod Encode
pub mod Decode
pub mod Numbers
pub mod Series
pub mod Keys
pub mod Restore
pub mod Roundtrip
mod Tests
