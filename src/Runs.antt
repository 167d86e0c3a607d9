-- ===== src/Runs.antt =====
-- The run of an analysis: its claim by a worker and its heartbeat
-- (packages/database/src/control-plane.ts).
pub mod Claim
pub mod Heartbeat
