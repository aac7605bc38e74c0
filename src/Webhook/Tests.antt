-- ===== src/Webhook/Tests.antt =====
-- The webhook queue and its service on concrete tables.
pub mod Data
pub mod Queue
pub mod Service
pub mod Handler
