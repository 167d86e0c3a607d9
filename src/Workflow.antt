-- ===== src/Workflow.antt =====
-- The durable workflow: packages/database/src/workflow.ts and the workflow methods of
-- `InMemoryControlPlaneRepository` in packages/database/src/control-plane.ts.
pub mod Phases
pub mod Retry
pub mod Types
pub mod Store
pub mod Claim
pub mod Worker
pub mod SideEffects
pub mod Owner
pub mod Reconcile
pub mod Calls
pub mod EventLog
pub mod TaskShape
pub mod Fencing
pub mod Replay
pub mod Exhausted
pub mod Cancelled
