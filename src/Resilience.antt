-- ===== src/Resilience.antt =====
-- internal/clients/resilience.go: the circuit breaker, the waits between attempts and the caller
-- that joins them. The metrics of the breaker are part of its state.
pub mod Breaker
pub mod Backoff
pub mod Caller
pub mod Tests
