-- ===== src/Process.antt =====
-- internal/collector/process.go: the rankings of the processes.
pub mod Parse
pub mod Collect
pub mod Entries
pub mod Ranking
pub mod Comm
mod Tests
