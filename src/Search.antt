-- ===== src/Search.antt =====
-- The search: internal/models/search.go, internal/services/search_vectors.go and
-- internal/services/search_service.go.
pub mod Request
pub mod Vectors
pub mod Rerank
pub mod Pipeline
pub mod Tests
