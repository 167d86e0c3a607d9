-- ===== src/Gateway.antt =====
-- apps/website-gateway: the stores of the gateway between the worker and the target website.
pub mod Leases
pub mod Checkpoints
pub mod Egress
pub mod Policies
pub mod Ownership
pub mod Secrets
pub mod Evidence
