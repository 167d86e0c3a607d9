-- ===== src/Cleanup.antt =====
-- The clean-up of closed website authentication checkpoints
-- (packages/database/src/control-plane.ts): the resources of a session and the queue of checkpoints.
pub mod Resources
pub mod Queue
