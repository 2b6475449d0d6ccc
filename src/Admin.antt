-- ===== src/Admin.antt =====
pub mod Json
pub mod Models
pub mod Diff
pub mod Service
pub mod Cache
pub mod Secrecy
pub mod Update
pub mod Tests
