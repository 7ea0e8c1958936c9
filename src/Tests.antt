-- ===== src/Tests.antt =====
-- Concrete runs of the modelled code and the theorems at inputs that meet their hypotheses.
mod Continuation
mod Store
mod Governance
mod Coordination
mod Projection
mod Bulkhead
mod Cache
mod Saga
mod Workflow
