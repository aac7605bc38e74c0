-- ===== src/Sources.antt =====
-- internal/datasource/manager.go: the manager of the data sources. A source's operations, the
-- contexts and the timers are the environment; the Prometheus counters are part of the state.
pub mod Mode
pub mod Policy
pub mod Registry
pub mod Retry
pub mod Tests
