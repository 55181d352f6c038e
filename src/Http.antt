-- ===== src/Http.antt =====
-- internal/httpapi: the guards of the HTTP API, its request counters, and the cached history.
pub mod Guard
pub mod Cache
pub mod Access
pub mod Routes
pub mod Counted
pub mod Tally
pub mod Tallied
pub mod Encoding
pub mod Prometheus
pub mod Payload
mod Tests
