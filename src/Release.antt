-- ===== src/Release.antt =====
-- The review, verification and publication of a release (packages/database/src/control-plane.ts).
pub mod Types
pub mod Checks
pub mod Observation
pub mod Tables
pub mod Review
pub mod Verify
pub mod Publish
