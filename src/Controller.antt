-- ===== src/Controller.antt =====
-- pkg/controllers/raycluster_controller.go: the reconciler of RayClusters.
pub mod Desired
pub mod Policies
pub mod Api
pub mod Effect
pub mod Certificate
pub mod Secrets
pub mod Reconcile
pub mod Endings
pub mod Complete
pub mod Scope
pub mod Phases
pub mod Authority
pub mod Unconfigured
pub mod Missing
pub mod Watch
