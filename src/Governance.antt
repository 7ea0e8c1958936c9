-- ===== src/Governance.antt =====
-- governance: the policies around an invocation. Failure is the classification of its error,
-- Breaker the circuit breaker, Bulkhead the bounded queue of a dependency.
pub mod Failure
pub mod Breaker
pub mod Bulkhead
