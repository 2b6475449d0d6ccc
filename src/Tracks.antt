-- ===== src/Tracks.antt =====
pub mod Models
pub mod Rows
pub mod Statements
pub mod Invariant
pub mod Table
pub mod Repository
pub mod Upsert
pub mod Steps
pub mod ById
pub mod Lifecycle
pub mod Ownership
pub mod Recovery
pub mod Budget
pub mod Service
pub mod Providers
pub mod Search
pub mod Acquire
pub mod Processor
pub mod Worker
pub mod Reconcile
pub mod Streams
pub mod Resolve
pub mod Failing
pub mod Outcome
pub mod Tests
pub mod StoreTests
pub mod MatchTests
pub mod SearchTests
