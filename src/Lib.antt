-- ===== src/Lib.antt =====
-- Verification library of keelith, a Go runtime for services.
--
-- The program. A continuable call is a durable record, a Snapshot, that executors move from status
-- to status. programmable/continuation holds its data and one pure transition function, Apply;
-- programmable/continuation/memory is the process-local store that keeps the snapshots, hands out
-- leases with fencing tokens and applies commits and commands. A workflow is a call whose snapshot
-- carries the states of the nodes of a graph; its planner turns them into commands. The runtime, the service and the
-- transports around the store call only these operations. governance guards invocations of other
-- services: its circuit breaker decides from the classified errors of past calls (governance/failure)
-- whether the next one may run, and its bulkhead bounds the calls that run at once and queues others.
-- coordination hands out exclusive leases of keys with fences; coordination/memory is its
-- process-local implementation. saga runs the steps of a definition in order and, when one
-- fails, the compensations of the completed ones in reverse; it saves its record
-- in a repository after every step, under the fence of the coordinator's lease of the instance.
-- programmable/projection keeps read models: a snapshot fills a projection and deltas, chained by
-- their cursors, move it on; its memory store is modelled. cache keeps loaded values with versions
-- that invalidations raise; its memory backend is modelled.
--
-- The files. Prelude is what all parts share: Go strings as lists of bytes with the UTF-8 decoding
-- that the validators use (Text), maps with string keys (Maps), uint64 arithmetic with its wrap-around
-- (Words), int and time.Duration (Int), float64 quotients and constants (Floats), sort.Strings (Sort),
-- (value, error) results (Results) and context.Context (Contexts).
--   Continuation.Identity    the identity and operation name rules of model.go
--   Continuation.Model       model.go, decision.go, timer.go: Snapshot, Transition, Error
--   Continuation.Workflow    workflow.go: the durable state of a workflow's nodes
--   Continuation.Workflow.Definition, Creation
--                            workflow.go: NewWorkflowDefinition with its checks, the topological order
--                            and the fingerprint
--   Continuation.Workflow.Plan
--                            workflow.go: EvaluateWorkflowJoin, workflowDefinitionOutcome and
--                            planWorkflowForParent
--   Continuation.Workflow.Runtime
--                            workflow_runtime.go: what a command, a child or a timer does to a node;
--                            Runtime.Reconcile is reconcile with executeCommand, for any handlers
--                            and children
--   Continuation.Apply       state.go: Apply, validateSnapshot, allowedTransition, commandDigest
--   Continuation.Retention   retention.go: PruneSnapshot
--   Continuation.Store       memory/store.go, memory/admin.go, memory/restore.go: a Store is the
--                            record of the three Go maps; Store.Calls has Create, Load, Acquire,
--                            Transition, ListReady, SubmitSignal, RequestCancel; Store.Leases has
--                            Claim, Renew, Release; Store.Admin has ListCalls, GetCall, PruneFrames,
--                            Expire, DeleteExpired; Store.Steps has histories of all these calls, and
--                            Store.FenceHistory what they do to the fence of a call
--   Governance.Failure       governance/failure/failure.go: Classify, Retryable
--   Governance.Breaker       governance/breaker/breaker.go: Breaker, Permit, Allow, Done; World is a
--                            breaker with the permits that its callers hold
--   Governance.Bulkhead      governance/bulkhead/bulkhead.go: Acquire up to its select, the cases of
--                            the select (wake), Release; a World has the callers and their permits
--   Coordination             coordination/memory/memory.go: Coordinator, TryAcquire, Release
--   Saga                     saga/saga.go: Definition, Record and their validation
--   Saga.Repository          saga/memory/repository.go: Load, Create, Save; RepositoryOf is the
--                            interface, with its laws, that the engine is given
--   Saga.Engine              saga/engine.go: loadOrCreate, save; Engine.Passes is the loop of Run, one
--                            pass per step, with what the handlers, contexts and clock do as an event
--   Saga.Ownership           the repository under the fences of the coordinator
--   Projection               programmable/projection/model.go: Schema, Mutation, DeltaBatch
--   Projection.Store         programmable/projection/memory/store.go: ApplyDelta, Get, Checkpoint and
--                            the snapshot transactions with Stage, Commit, Abort
--   Cache                    cache/memory/memory.go: Get, Set, Delete, CurrentVersion, SetIfVersion,
--                            ApplyInvalidation
--   Tests                    runs on concrete inputs, and the theorems applied to them
-- A method becomes a function from the state to the state and a result, with Go's early returns as
-- the steps of a do block and one constructor per sentinel error. A method that returns an error
-- without having changed anything returns the error alone. The mutex makes each method one atomic
-- step, so an interleaving of goroutines is a list of calls.
--
-- Numbers. A uint64 is a natural number with its wrap-around written out; int and time.Duration are
-- integers. A time is the number of nanoseconds since Go's zero time, so that IsZero is a comparison
-- with 0; the clock's reading is an argument of each step. A float64 quotient is rounded to 53 bits;
-- its two loops run on fuel, 11 doublings for the conversion of a uint64 (its spacing is at most
-- 2 ^ 11) and 117 for a quotient (64 bits of ratio and 53 of significand). The loop
-- of Acquire that grants runs on the number of waiters, one of which each turn takes, and the
-- loop of topologicalWorkflowNodes on the number of nodes, since each turn takes a node of its own.
-- The loop of reconcile runs on the number of actions: a turn that goes on takes one, so that any
-- more fuel gives the same (Runtime.Fuel.act_enough).
-- The loop of a saga run takes one event per pass from a list. All other loops are structural.
--
-- Not modelled. sha256 and json.Marshal are arguments of the definitions that use them, and so are
-- the handlers and the children of a workflow. Nil receivers, the text that fmt.Errorf adds to an
-- error and the copies that keep callers from sharing memory (values here) are left out, as are the
-- goroutines of the runtime, the loops that poll the store, JSON encoding, the transports, code generation and
-- user code. The order of Go's iteration over a map is the order of insertion here, and the code
-- sorts what it collects from it.
pub mod Prelude
pub mod Continuation
pub mod Governance
pub mod Coordination
pub mod Saga
pub mod Projection
pub mod Cache
pub mod Tests
