-- ===== src/Cli.antt =====
-- src/cli: the commands of an operator, which write to the database of an instance beside the service.
pub mod Command
pub mod Rescue
pub mod Diagnosis
pub mod Env
pub mod Legacy
pub mod Keys
pub mod Recovery
pub mod Keeps
pub mod Governed
pub mod Import
pub mod Exits
pub mod Bootstrap
pub mod Tests
