-- ===== src/Core.antt =====
-- src/backend/core: the exceptions, the result type and the instance configuration.
pub mod Errors
pub mod Result
pub mod Settings
pub mod Config
pub mod RateLimit
pub mod Tests
pub mod SettingsTests
