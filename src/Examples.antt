-- ===== src/Examples.antt =====
-- Concrete runs of the models: the properties' witnesses and small tests.
mod Workflow
mod Capability
mod Gateway
mod Security
mod Release
mod Projects
mod Cleanup
mod Runs
mod Stores
mod Ownership
mod Cancellation
