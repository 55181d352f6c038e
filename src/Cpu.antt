-- ===== src/Cpu.antt =====
-- internal/collector/cpu.go: the CPU usage from /proc/stat.
pub mod Stat
pub mod Usage
pub mod Panic
mod Tests
