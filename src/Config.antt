-- ===== src/Config.antt =====
-- internal/config: the configuration, its validation, and how it is resolved.
pub mod Types
pub mod Validate
pub mod Load
pub mod Laws
pub mod Nan
pub mod Precedence
mod Tests
