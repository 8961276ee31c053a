-- ===== src/Webhook/Default.antt =====
-- `Default` of pkg/controllers/raycluster_webhook.go: the mutating half of the webhook.
use codeflare_operator.Base.{String, Option, none, some, List, [], ◌∷◌, if◌then◌else◌}
use codeflare_operator.Base.Run.{Run, returns, ◌>>=◌, pointee, at_first}
use codeflare_operator.Base.StringMap.{StringMap, insert}
use codeflare_operator.Host.{Host}
use codeflare_operator.Config.{KubeRayConfiguration, oauth_on, mtls_on}
use codeflare_operator.Kube.{
  RayCluster, WorkerGroupSpec, PodSpec, Container, EnvVar, Volume, VolumeMount, head_pod,
  with_head_pod, worker_pod, with_worker_pod, with_workers,
}
use codeflare_operator.Support.{
  upsert, with_container_name, with_volume_name, with_env_var_name, by_volume_mount_name,
}
use codeflare_operator.Naming.{version_annotation, oauth_service_account_name_from_cluster}
use codeflare_operator.Webhook.Parts.{
  oauth_proxy_container_name, oauth_proxy_volume_name, init_container_name, cert_volume_mounts,
  env_var_list, oauth_proxy_container, oauth_proxy_tls_secret_volume, ca_volumes,
  ray_head_init_container, ray_worker_init_container,
}

-- `rayClusterWebhook`
pub record RayClusterWebhook : Type 0 where
  pub config : Option KubeRayConfiguration
  pub operator_version : String

abbrev pub entries : Option StringMap → StringMap
entries none = []
entries (some m) = m

-- The annotation that switches to the new names; a nil map is made first.
unfoldable pub set_version : RayClusterWebhook → RayCluster → RayCluster
set_version w c = record c {
  annotations = some (insert version_annotation w.operator_version (entries c.annotations));
}

-- `for _, envVar := range vars { Containers[0].Env = upsert(...) }`
unfoldable pub put_env : List EnvVar → List Container → Run (List Container)
put_env [] containers = returns containers
put_env (e ∷ vars) containers = do
  containers' ←
      at_first (λ ct. record ct { env = upsert ct.env e (with_env_var_name e.name) }) containers
  put_env vars containers'

-- `for _, mount := range mounts { Containers[0].VolumeMounts = upsert(...) }`
unfoldable pub put_mounts : List VolumeMount → List Container → Run (List Container)
put_mounts [] containers = returns containers
put_mounts (m ∷ mounts) containers = do
  containers' ←
      at_first (λ ct. record ct { volume_mounts = upsert ct.volume_mounts m by_volume_mount_name })
        containers
  put_mounts mounts containers'

-- `for _, caVol := range volumes { Volumes = upsert(...) }`
unfoldable pub put_volumes : List Volume → List Volume → List Volume
put_volumes [] volumes = volumes
put_volumes (v ∷ more) volumes = put_volumes more (upsert volumes v (with_volume_name v.name))

module _ (h : Host) where
  -- The OAuth sidecar, its volume and the service account, in the head pod.
  unfoldable pub add_oauth : RayCluster → RayCluster
  add_oauth c =
      let pod = head_pod c in
      with_head_pod c (record pod {
        containers =
            upsert pod.containers (oauth_proxy_container h c)
              (with_container_name oauth_proxy_container_name);
        volumes =
            upsert pod.volumes (oauth_proxy_tls_secret_volume h c)
              (with_volume_name oauth_proxy_volume_name);
        service_account_name = oauth_service_account_name_from_cluster h c;
      })

  module _ (cfg : KubeRayConfiguration) (c : RayCluster) where
    -- The certificate parts of the head pod.
    unfoldable pub secure_head : PodSpec → Run PodSpec
    secure_head pod = do
      containers ← put_env env_var_list pod.containers
      let inits =
          upsert pod.init_containers (ray_head_init_container h c cfg)
            (with_container_name init_container_name)
      let volumes = put_volumes (ca_volumes h c) pod.volumes
      containers' ← put_mounts cert_volume_mounts containers
      returns (record pod { containers = containers'; init_containers = inits; volumes = volumes })

    -- The certificate parts of a worker pod.
    unfoldable pub secure_worker : PodSpec → Run PodSpec
    secure_worker pod = do
      containers ← put_env env_var_list pod.containers
      let volumes = put_volumes (ca_volumes h c) pod.volumes
      containers' ← put_mounts cert_volume_mounts containers
      let inits =
          upsert pod.init_containers (ray_worker_init_container h cfg)
            (with_container_name init_container_name)
      returns (record pod { containers = containers'; init_containers = inits; volumes = volumes })

    -- The loop over `WorkerGroupSpecs`.
    unfoldable pub secure_workers : List WorkerGroupSpec → Run (List WorkerGroupSpec)
    secure_workers [] = returns []
    secure_workers (w ∷ workers) = do
      pod ← secure_worker (worker_pod w)
      workers' ← secure_workers workers
      returns (with_worker_pod w pod ∷ workers')

  -- The branch of `Default` for mTLS.
  unfoldable pub add_mtls : KubeRayConfiguration → RayCluster → Run RayCluster
  add_mtls cfg c = do
    pod ← secure_head cfg c (head_pod c)
    workers ← secure_workers cfg c c.spec.worker_group_specs
    returns (with_workers (with_head_pod c pod) workers)

  -- `Default`
  unfoldable pub default : RayClusterWebhook → RayCluster → Run RayCluster
  default w c = do
    let named = set_version w c
    cfg ← pointee w.config
    let guarded = if oauth_on cfg then add_oauth named else named
    if mtls_on cfg then add_mtls cfg guarded else returns guarded
