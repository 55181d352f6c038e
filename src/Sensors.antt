-- ===== src/Sensors.antt =====
-- internal/collector/vcgencmd.go, temperature.go and throttled.go: temperatures and throttling flags.
pub mod Vcgencmd
pub mod Detection
pub mod Zone
pub mod Temperature
pub mod Pmic
pub mod Throttled
mod Tests
