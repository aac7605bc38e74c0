-- ===== src/Sync.antt =====
-- internal/services/salesforce_sync_service.go: the synchronisation of the Carta de Serviços.
pub mod Featured
pub mod Mapping
pub mod Listing
pub mod Run
pub mod Record
pub mod Canonical
pub mod Effect
pub mod Moved
pub mod Themes
pub mod Pages
pub mod Collect
pub mod Tests
