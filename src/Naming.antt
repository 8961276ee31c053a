-- ===== src/Naming.antt =====
-- Names of the objects of a RayCluster: `seededHash` and `getEnv` of support.go, and the naming
-- functions of raycluster_controller.go and support.go, under pkg/controllers.
pub mod Hash
pub mod Unique
pub mod Clashes
pub mod Lengths
use codeflare_operator.Base.{ℕ, String, ◌<>◌, Bool, not, Option, none, some}
use codeflare_operator.Base.{if◌then◌else◌, ◌==◌}
use codeflare_operator.Base.StringMap.{StringMap, lookup}
use codeflare_operator.Host.{Host}
use codeflare_operator.Kube.{RayCluster}
use Hash.{seeded_hash}

-- `getEnv`
unfoldable pub get_env : Host → String → String → String
get_env h key fallback = elim (h.lookup_env key) [ none ↦ fallback | some value ↦ value ]

abbrev pub cert_generator_image : Host → String
cert_generator_image h =
    get_env h "CERT_GENERATOR_IMAGE"
      "registry.redhat.io/ubi9@sha256:770cf07083e1c85ae69c25181a205b7cdef63c11b794c89b3b487d4670b4c328"

abbrev pub oauth_proxy_image : Host → String
oauth_proxy_image h =
    get_env h "OAUTH_PROXY_IMAGE"
      "registry.redhat.io/openshift4/ose-oauth-proxy@sha256:1ea6a01bf3e63cdcf125c6064cbd4a4a270deaf0f157b3eabb78f60556840366"

abbrev pub version_annotation : String
version_annotation = "ray.openshift.ai/version"

abbrev pub controller_name : String
controller_name = "codeflare-raycluster-controller"

-- `cluster.GetAnnotations()[key]`; a nil map has no entry.
abbrev pub annotation : RayCluster → String → Option String
annotation c key = elim c.annotations [ none ↦ none | some m ↦ lookup key m ]

abbrev has_value : Option String → Bool
has_value none = Bool.false
has_value (some _) = Bool.true

-- `shouldUseOldName`
unfoldable pub should_use_old_name : RayCluster → Bool
should_use_old_name c = not (has_value (annotation c version_annotation))

module _ (h : Host) where
  -- `RCCUniqueName`
  unfoldable pub rcc_unique_name : String → String
  rcc_unique_name s = s <> "-" <> seeded_hash h controller_name s

  -- `crbNameFromCluster`
  unfoldable pub crb_name_from_cluster : RayCluster → String
  crb_name_from_cluster c =
      if should_use_old_name c
      then c.name <> "-" <> c.namespace <> "-auth"
      else rcc_unique_name (c.name <> "-" <> c.namespace <> "-auth")

  -- `oauthServiceAccountNameFromCluster`
  unfoldable pub oauth_service_account_name_from_cluster : RayCluster → String
  oauth_service_account_name_from_cluster c =
      if should_use_old_name c
      then c.name <> "-oauth-proxy"
      else rcc_unique_name (c.name <> "-oauth-proxy")

  -- `oauthServiceNameFromCluster`
  unfoldable pub oauth_service_name_from_cluster : RayCluster → String
  oauth_service_name_from_cluster c =
      if should_use_old_name c then c.name <> "-oauth" else rcc_unique_name (c.name <> "-oauth")

  -- `oauthServiceTLSSecretName`
  unfoldable pub oauth_service_tls_secret_name : RayCluster → String
  oauth_service_tls_secret_name c =
      if should_use_old_name c
      then c.name <> "-proxy-tls-secret"
      else rcc_unique_name (c.name <> "-proxy-tls-secret")

  -- `oauthSecretNameFromCluster`
  unfoldable pub oauth_secret_name_from_cluster : RayCluster → String
  oauth_secret_name_from_cluster c =
      if should_use_old_name c
      then c.name <> "-oauth-config"
      else rcc_unique_name (c.name <> "-oauth-config")

  -- `caSecretNameFromCluster`
  unfoldable pub ca_secret_name_from_cluster : RayCluster → String
  ca_secret_name_from_cluster c =
      if should_use_old_name c
      then "ca-secret-" <> c.name
      else rcc_unique_name (c.name <> "-ca-secret")

  -- `workerNWPNameFromCluster`
  unfoldable pub worker_nwp_name_from_cluster : RayCluster → String
  worker_nwp_name_from_cluster c =
      if should_use_old_name c then c.name <> "-workers" else rcc_unique_name (c.name <> "-workers")

  -- `headNWPNameFromCluster`
  unfoldable pub head_nwp_name_from_cluster : RayCluster → String
  head_nwp_name_from_cluster c =
      if should_use_old_name c then c.name <> "-head" else rcc_unique_name (c.name <> "-head")

-- `dashboardNameFromCluster`
unfoldable pub dashboard_name_from_cluster : RayCluster → String
dashboard_name_from_cluster c = "ray-dashboard-" <> c.name

-- `rayClientNameFromCluster`
unfoldable pub ray_client_name_from_cluster : RayCluster → String
ray_client_name_from_cluster c = "rayclient-" <> c.name

-- `serviceNameFromCluster`
unfoldable pub service_name_from_cluster : RayCluster → String
service_name_from_cluster c = c.name <> "-head-svc"
