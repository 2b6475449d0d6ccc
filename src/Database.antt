-- ===== src/Database.antt =====
-- The PostgreSQL database as the repositories see it: src/backend/database and the SQLAlchemy
-- session.
pub mod Tables
pub mod Exec
pub mod Sql
pub mod Quiet
