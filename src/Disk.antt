-- ===== src/Disk.antt =====
-- internal/collector/disk.go: the usage of the mounted filesystems.
pub mod Mounts
pub mod Collect
pub mod Escape
pub mod Dedupe
pub mod Cooldown
pub mod Ticks
pub mod Usage
mod Tests
