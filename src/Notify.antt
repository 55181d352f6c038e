-- ===== src/Notify.antt =====
-- internal/alert/notify.go: the delivery of alert events to webhooks.
pub mod Types
pub mod Deliver
pub mod Dispatch
pub mod Attempts
pub mod Queues
pub mod Limit
mod Tests
