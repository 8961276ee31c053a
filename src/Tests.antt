-- ===== src/Tests.antt =====
-- Concrete hosts, clusters and servers, and the theorems at them.
pub mod Data
pub mod Semantics
pub mod Upserts
pub mod Names
pub mod Webhooks
pub mod Reconciliations
pub mod Connections
pub mod Startups
pub mod Processes
pub mod Logs
