-- ===== src/Playlists.antt =====
pub mod Models
pub mod Repository
pub mod Service
pub mod Schemas
pub mod Order
pub mod Reorder
pub mod Access
pub mod Shown
pub mod Items
pub mod Moves
pub mod Shelf
pub mod Statements
pub mod Imports
pub mod Requests
pub mod Invariant
pub mod Tests
