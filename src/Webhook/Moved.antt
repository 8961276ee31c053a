-- ===== src/Webhook/Moved.antt =====
-- Pods and worker groups do not enter the names of a cluster, nor what is injected into it.
use codeflare_operator.Base.{◌≡◌, refl, List}
use codeflare_operator.Host.{Host}
use codeflare_operator.Config.{KubeRayConfiguration}
use codeflare_operator.Kube.{RayCluster, WorkerGroupSpec, PodSpec, with_head_pod, with_workers}
use codeflare_operator.Naming.{
  should_use_old_name, oauth_service_account_name_from_cluster, oauth_secret_name_from_cluster,
  oauth_service_tls_secret_name, ca_secret_name_from_cluster, ray_client_name_from_cluster,
  service_name_from_cluster,
}
use codeflare_operator.Webhook.Parts.{
  ca_volumes, ray_head_init_container, oauth_proxy_container, oauth_proxy_tls_secret_volume,
}

module _ (c : RayCluster) (p : PodSpec) (ws : List WorkerGroupSpec) where
  abbrev pub moved : RayCluster
  moved = with_workers (with_head_pod c p) ws

module _ (h : Host) (c : RayCluster) (p : PodSpec) (ws : List WorkerGroupSpec) where
  pub oauth_proxy_container-moved :
      oauth_proxy_container h (moved c p ws) ≡ oauth_proxy_container h c
  unfolding oauth_proxy_container oauth_service_account_name_from_cluster
      oauth_secret_name_from_cluster should_use_old_name
  oauth_proxy_container-moved = refl

  pub oauth_proxy_tls_secret_volume-moved :
      oauth_proxy_tls_secret_volume h (moved c p ws) ≡ oauth_proxy_tls_secret_volume h c
  unfolding oauth_proxy_tls_secret_volume oauth_service_tls_secret_name should_use_old_name
  oauth_proxy_tls_secret_volume-moved = refl

  pub oauth_service_account_name-moved :
      oauth_service_account_name_from_cluster h (moved c p ws)
      ≡ oauth_service_account_name_from_cluster h c
  unfolding oauth_service_account_name_from_cluster should_use_old_name
  oauth_service_account_name-moved = refl

  pub ca_volumes-moved : ca_volumes h (moved c p ws) ≡ ca_volumes h c
  unfolding ca_volumes ca_secret_name_from_cluster should_use_old_name
  ca_volumes-moved = refl

  pub ray_head_init_container-moved :
      (cfg : KubeRayConfiguration)
      → ray_head_init_container h (moved c p ws) cfg ≡ ray_head_init_container h c cfg
  unfolding ray_head_init_container ray_client_name_from_cluster service_name_from_cluster
  ray_head_init_container-moved cfg = refl
