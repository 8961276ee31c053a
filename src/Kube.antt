-- ===== src/Kube.antt =====
-- The Kubernetes and KubeRay values that the operator reads and builds.
pub mod Core
pub mod Ray
pub mod Apply
pub use Core.*
pub use Ray.*
pub use Apply.*
