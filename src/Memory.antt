-- ===== src/Memory.antt =====
-- internal/collector/memory.go: memory and swap from /proc/meminfo.
pub mod Defs
mod Tests
