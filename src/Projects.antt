-- ===== src/Projects.antt =====
-- The projects of an organisation, their sources and the analyses that they queue
-- (packages/database/src/control-plane.ts).
pub mod Types
pub mod Tables
pub mod Create
pub mod Reads
pub mod Analyses
