-- ===== src/Auth.antt =====
pub mod Models
pub mod Repository
pub mod Service
pub mod Refresh
pub mod Access
pub mod Guard
pub mod Sessions
pub mod Logout
pub mod Login
pub mod Tests
