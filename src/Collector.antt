-- ===== src/Collector.antt =====
-- internal/collector/collector.go: the retained history of every metric.
pub mod Search
pub mod Store
pub mod Record
pub mod Import
pub mod Since
pub mod Evict
mod Tests
