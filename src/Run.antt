-- ===== src/Run.antt =====
-- internal/collector/collector.go and persist.go: the running collector, with its alerts, the workers of
-- the webhooks and the history file.
pub mod Write
pub mod State
pub mod Ticks
pub mod Steps
pub mod Rings
pub mod Queues
pub mod Sound
pub mod File
pub mod Restore
mod Tests
