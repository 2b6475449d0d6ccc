-- ===== src/Integrations.antt =====
-- src/backend/integrations: the adapters to the storage, to the cache and to the providers.
pub mod Storage
pub mod Spotify
pub mod Cache
pub mod Tests
