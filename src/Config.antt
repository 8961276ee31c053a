-- ===== src/Config.antt =====
-- pkg/config/config.go: the configuration of the RayCluster webhook and controller, and that of the
-- operator in a child.
pub mod Manager
use codeflare_operator.Base.{String, Bool, true, Option, deref}

pub record KubeRayConfiguration : Type 0 where
  pub ray_dashboard_oauth_enabled : Option Bool
  pub ingress_domain : String
  pub mtls_enabled : Option Bool

-- The two readings of a flag that the webhook makes, of a configuration that is there.
abbrev pub oauth_on : KubeRayConfiguration → Bool
oauth_on cfg = deref cfg.ray_dashboard_oauth_enabled true

abbrev pub mtls_on : KubeRayConfiguration → Bool
mtls_on cfg = deref cfg.mtls_enabled true
