-- ===== src/Continuation.antt =====
-- programmable/continuation and programmable/continuation/memory: durable continuable calls.
-- Model, Identity and Workflow hold the data and its validation, Apply the state machine,
-- Retention the pruning of frames, and Store the process-local store with its leases.
pub mod Identity
pub mod Model
pub mod Workflow
pub mod Apply
pub mod Retention
pub mod Store
