-- ===== src/Users.antt =====
pub mod Models
pub mod Repository
pub mod Service
pub mod Counting
pub mod Admins
pub mod Managed
pub mod Outcomes
pub mod Tests
