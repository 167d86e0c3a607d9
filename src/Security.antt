-- ===== src/Security.antt =====
-- The checks of packages/security/src/security.ts on addresses, targets and requests.
pub mod Ipv4
pub mod Ipv6
pub mod Targets
pub mod Evidence
