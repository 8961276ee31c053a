-- ===== src/Webhook.antt =====
-- pkg/controllers/raycluster_webhook.go: the admission webhook of RayClusters.
pub mod Parts
pub mod Default
pub mod Validate
pub mod Loops
pub mod Secured
pub mod Moved
pub mod Accept
pub mod Laws
pub mod Consistent
pub mod Injected
pub mod Total
pub mod Upgrade
pub mod Immutable
pub mod Idempotent
pub mod Mutation
