-- ===== src/Webhook.antt =====
-- The Salesforce webhook: the durable queue of its events and the service that works it off.
pub mod Queue
pub mod Service
pub mod Handler
pub mod Tests
