-- ===== src/Webhook/Validate.antt =====
-- `ValidateCreate`, `ValidateUpdate` and `ValidateDelete` of pkg/controllers/raycluster_webhook.go.
-- The list of errors is what `ToAggregate` turns into an error, or into nil if it is empty.
use codeflare_operator.Base.{
  ℕ, ◌+◌, String, Bool, false, Option, none, some, List, [], ◌∷◌, ◌++◌, ◌==◌, if◌then◌else◌, deref,
  not,
}
use codeflare_operator.Base.Decimal.{itoa}
use codeflare_operator.Base.Run.{Run, returns, ◌>>=◌, pointee, first}
use codeflare_operator.Host.{Host}
use codeflare_operator.Config.{KubeRayConfiguration, oauth_on, mtls_on}
use codeflare_operator.Kube.{
  RayCluster, WorkerGroupSpec, Container, EnvVar, Volume, head_pod, worker_pod, is_zero,
}
use codeflare_operator.Support.{contains, by_container_name, by_volume_name, by_env_var_name}
use codeflare_operator.Support.Fields.{FieldError, Value, invalid}
use codeflare_operator.Naming.{oauth_service_account_name_from_cluster}
use codeflare_operator.Webhook.Parts.{
  env_var_list, oauth_proxy_container, oauth_proxy_tls_secret_volume, ca_volumes,
  ray_head_init_container, ray_worker_init_container,
}
use codeflare_operator.Webhook.Default.{RayClusterWebhook}

-- `equality.Semantic.DeepDerivative` of apimachinery at the three types that are compared by it.
pub record Semantic : Type 0 where
  pub container : Container → Container → Bool
  pub volume : Volume → Volume → Bool
  pub env_var : EnvVar → EnvVar → Bool

-- `if err := ...; err != nil { allErrors = append(allErrors, err) }`
abbrev pub to_errors : Option FieldError → List FieldError
to_errors none = []
to_errors (some e) = e ∷ []

abbrev pub head_path : List String → List String
head_path rest = "spec" ∷ "headGroupSpec" ∷ "template" ∷ "spec" ∷ rest

abbrev pub worker_path : ℕ → List String → List String
worker_path i rest = "spec" ∷ "workerGroupSpecs" ∷ itoa i ∷ "template" ∷ "spec" ∷ rest

-- `validateIngress`
unfoldable pub validate_ingress : RayCluster → List FieldError
validate_ingress c =
    if deref c.spec.head_group_spec.enable_ingress false
    then invalid ("spec" ∷ "headGroupSpec" ∷ "enableIngress" ∷ [])
        (Value.flag c.spec.head_group_spec.enable_ingress)
        "RayCluster with enableIngress set to true is not allowed"
      ∷ []
    else []

module _ (h : Host) (s : Semantic) where
  -- `validateOAuthProxyContainer`
  unfoldable pub validate_oauth_proxy_container : RayCluster → List FieldError
  validate_oauth_proxy_container c = to_errors (
      contains s.container Value.container (head_pod c).containers (oauth_proxy_container h c)
        by_container_name (head_path ("containers" ∷ [])) "OAuth Proxy container is immutable")

  -- `validateOAuthProxyVolume`
  unfoldable pub validate_oauth_proxy_volume : RayCluster → List FieldError
  validate_oauth_proxy_volume c = to_errors (
      contains s.volume Value.volume (head_pod c).volumes (oauth_proxy_tls_secret_volume h c)
        by_volume_name (head_path ("volumes" ∷ [])) "OAuth Proxy TLS Secret volume is immutable")

  -- `validateHeadGroupServiceAccountName`
  unfoldable pub validate_head_group_service_account_name : RayCluster → List FieldError
  validate_head_group_service_account_name c =
      if (head_pod c).service_account_name == oauth_service_account_name_from_cluster h c
      then []
      else invalid (head_path ("serviceAccountName" ∷ []))
          (Value.text (head_pod c).service_account_name)
          "RayCluster head group service account is immutable"
        ∷ []

  -- `validateHeadInitContainer`
  unfoldable pub validate_head_init_container : RayCluster → KubeRayConfiguration → List FieldError
  validate_head_init_container c cfg = to_errors (
      contains s.container Value.container (head_pod c).init_containers
        (ray_head_init_container h c cfg) by_container_name (head_path ("initContainers" ∷ []))
        "create-cert Init Container is immutable")

  -- The loop of `validateWorkerInitContainer`, from worker group `i` on.
  unfoldable pub validate_init_containers_from :
      KubeRayConfiguration → ℕ → List WorkerGroupSpec → List FieldError
  validate_init_containers_from cfg i [] = []
  validate_init_containers_from cfg i (w ∷ workers) =
      to_errors (
        contains s.container Value.container (worker_pod w).init_containers
          (ray_worker_init_container h cfg) by_container_name
          (worker_path i ("initContainers" ∷ [])) "create-cert Init Container is immutable")
      ++ validate_init_containers_from cfg (i + 1) workers

  -- `validateWorkerInitContainer`
  unfoldable pub validate_worker_init_container :
      RayCluster → KubeRayConfiguration → List FieldError
  unfolding validate_init_containers_from
  validate_worker_init_container c cfg =
      validate_init_containers_from cfg 0 c.spec.worker_group_specs

  abbrev ca_message : String
  ca_message = "ca-vol and server-cert Secret volumes are immutable"

  -- The inner loop of `validateCaVolumes`, from worker group `i` on.
  unfoldable pub validate_volume_from : Volume → ℕ → List WorkerGroupSpec → List FieldError
  validate_volume_from v i [] = []
  validate_volume_from v i (w ∷ workers) =
      to_errors (
        contains s.volume Value.volume (worker_pod w).volumes v by_volume_name
          (worker_path i ("volumes" ∷ [])) ca_message)
      ++ validate_volume_from v (i + 1) workers

  -- The outer loop of `validateCaVolumes`.
  unfoldable pub validate_volumes : RayCluster → List Volume → List FieldError
  unfolding validate_volume_from
  validate_volumes c [] = []
  validate_volumes c (v ∷ volumes) =
      to_errors (
        contains s.volume Value.volume (head_pod c).volumes v by_volume_name
          (head_path ("volumes" ∷ [])) ca_message)
      ++ (validate_volume_from v 0 c.spec.worker_group_specs ++ validate_volumes c volumes)

  -- `validateCaVolumes`
  unfoldable pub validate_ca_volumes : RayCluster → List FieldError
  unfolding validate_volumes
  validate_ca_volumes c = validate_volumes c (ca_volumes h c)

  -- The loop over `envVarList` for one pod; it reads `Containers[0]` in each round.
  unfoldable pub validate_env_vars :
      List String → List Container → List EnvVar → Run (List FieldError)
  validate_env_vars path containers [] = returns []
  validate_env_vars path containers (e ∷ vars) = do
    ct ← first containers
    rest ← validate_env_vars path containers vars
    returns (
        to_errors (
          contains s.env_var Value.env_var ct.env e by_env_var_name path
            "RAY_TLS related environment variables are immutable")
        ++ rest)

  -- `validateHeadEnvVars`
  unfoldable pub validate_head_env_vars : RayCluster → Run (List FieldError)
  unfolding validate_env_vars
  validate_head_env_vars c =
      validate_env_vars (head_path ("containers" ∷ itoa 0 ∷ "env" ∷ [])) (head_pod c).containers
        env_var_list

  -- The loop of `validateWorkerEnvVars`, from worker group `i` on.
  unfoldable pub validate_env_vars_from : ℕ → List WorkerGroupSpec → Run (List FieldError)
  unfolding validate_env_vars
  validate_env_vars_from i [] = returns []
  validate_env_vars_from i (w ∷ workers) = do
    errors ←
        validate_env_vars (worker_path i ("containers" ∷ itoa 0 ∷ "env" ∷ []))
          (worker_pod w).containers env_var_list
    rest ← validate_env_vars_from (i + 1) workers
    returns (errors ++ rest)

  -- `validateWorkerEnvVars`
  unfoldable pub validate_worker_env_vars : RayCluster → Run (List FieldError)
  unfolding validate_env_vars_from
  validate_worker_env_vars c = validate_env_vars_from 0 c.spec.worker_group_specs

  -- The checks that creation and update share.
  unfoldable pub validate_oauth : KubeRayConfiguration → RayCluster → List FieldError
  validate_oauth cfg c =
      if oauth_on cfg
      then validate_oauth_proxy_container c
        ++ (validate_oauth_proxy_volume c ++ validate_head_group_service_account_name c)
      else []

  -- The checks of an update for mTLS.
  unfoldable pub validate_mtls : KubeRayConfiguration → RayCluster → Run (List FieldError)
  validate_mtls cfg c = do
    head_errors ← validate_head_env_vars c
    worker_errors ← validate_worker_env_vars c
    returns (
        validate_head_init_container c cfg
        ++ (validate_worker_init_container c cfg
            ++ (head_errors ++ (worker_errors ++ validate_ca_volumes c))))

  -- `ValidateCreate`
  unfoldable pub validate_create : RayClusterWebhook → RayCluster → Run (List FieldError)
  validate_create w c = do
    cfg ← pointee w.config
    returns (validate_ingress c ++ validate_oauth cfg c)

  -- `ValidateUpdate`: of the new object, unless it is being deleted.
  unfoldable pub validate_update :
      RayClusterWebhook → RayCluster → RayCluster → Run (List FieldError)
  validate_update w old c = if not (is_zero c.deletion_timestamp) then returns [] else do
    cfg ← pointee w.config
    mtls_errors ← if mtls_on cfg then validate_mtls cfg c else returns []
    returns (validate_ingress c ++ (validate_oauth cfg c ++ mtls_errors))

-- `ValidateDelete`
unfoldable pub validate_delete : RayCluster → List FieldError
validate_delete c = []
