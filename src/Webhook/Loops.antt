-- ===== src/Webhook/Loops.antt =====
-- What the loops of `Default` compute on a pod that has a container.
use codeflare_operator.Base.{String, ◌≡◌, refl, List, [], ◌∷◌}
use codeflare_operator.Base.Run.{returns, panics}
use codeflare_operator.Host.{Host}
use codeflare_operator.Config.{KubeRayConfiguration}
use codeflare_operator.Kube.{RayCluster, PodSpec, Container, EnvVar, Volume, VolumeMount}
use codeflare_operator.Support.{
  upsert, by_volume_mount_name, with_env_var_name, with_volume_name, Compare, with_container_name,
}
use codeflare_operator.Support.UpsertAll.{upsert_all, Distinct}
use codeflare_operator.Webhook.Parts.{
  cert_volume_mounts, env_var_list, ca_volumes, ray_head_init_container, ray_worker_init_container,
  init_container_name,
}
use codeflare_operator.Webhook.Default.{
  put_env, put_mounts, put_volumes, secure_head, secure_worker,
}

abbrev pub container_key : Container → String
container_key c = c.name

abbrev pub volume_key : Volume → String
volume_key v = v.name

abbrev pub mount_key : VolumeMount → String
mount_key m = m.name

abbrev pub env_key : EnvVar → String
env_key e = e.name

abbrev pub env_compare : EnvVar → Compare EnvVar
env_compare e = with_env_var_name e.name

abbrev pub volume_compare : Volume → Compare Volume
volume_compare v = with_volume_name v.name

abbrev pub mount_compare : VolumeMount → Compare VolumeMount
mount_compare m = by_volume_mount_name

-- The first container with the certificate variables and mounts.
unfoldable pub secured : Container → Container
secured ct = record ct {
  env = upsert_all env_compare env_var_list ct.env;
  volume_mounts = upsert_all mount_compare cert_volume_mounts ct.volume_mounts;
}

abbrev with_env : List EnvVar → Container → Container
with_env vars ct = record ct { env = upsert_all env_compare vars ct.env }

abbrev with_mounts : List VolumeMount → Container → Container
with_mounts ms ct = record ct { volume_mounts = upsert_all mount_compare ms ct.volume_mounts }

put_env-cons :
    (vars : List EnvVar) (ct : Container) (rest : List Container)
    → put_env vars (ct ∷ rest) ≡ returns (with_env vars ct ∷ rest)
unfolding put_env upsert_all
put_env-cons [] ct rest = refl
put_env-cons (e ∷ vars) ct rest = put_env-cons vars _ rest

put_mounts-cons :
    (ms : List VolumeMount) (ct : Container) (rest : List Container)
    → put_mounts ms (ct ∷ rest) ≡ returns (with_mounts ms ct ∷ rest)
unfolding put_mounts upsert_all
put_mounts-cons [] ct rest = refl
put_mounts-cons (m ∷ ms) ct rest = put_mounts-cons ms _ rest

put_volumes-eq-upsert_all :
    (new volumes : List Volume) → put_volumes new volumes ≡ upsert_all volume_compare new volumes
unfolding put_volumes upsert_all
put_volumes-eq-upsert_all [] volumes = refl
put_volumes-eq-upsert_all (v ∷ new) volumes = put_volumes-eq-upsert_all new _

-- A pod with its certificate parts, given the CA volumes, the init container, and the first
-- container and the others.
unfoldable pub secured_pod :
    List Volume → Container → Container → List Container → PodSpec → PodSpec
secured_pod cas init ct rest pod = record pod {
  containers = secured ct ∷ rest;
  init_containers = upsert pod.init_containers init (with_container_name init_container_name);
  volumes = upsert_all volume_compare cas pod.volumes;
}

module _ (h : Host) (cfg : KubeRayConfiguration) (c : RayCluster) where
  pub secure_head-cons :
      (ct : Container) (rest : List Container) (pod : PodSpec)
      → pod.containers ≡ ct ∷ rest
      → secure_head h cfg c pod
        ≡ returns (secured_pod (ca_volumes h c) (ray_head_init_container h c cfg) ct rest pod)
  unfolding secure_head secured_pod secured
  secure_head-cons ct rest pod e = rw (e, put_env-cons, put_mounts-cons, put_volumes-eq-upsert_all)

  pub secure_worker-cons :
      (ct : Container) (rest : List Container) (pod : PodSpec)
      → pod.containers ≡ ct ∷ rest
      → secure_worker h cfg c pod
        ≡ returns (secured_pod (ca_volumes h c) (ray_worker_init_container h cfg) ct rest pod)
  unfolding secure_worker secured_pod secured
  secure_worker-cons ct rest pod e =
      rw (e, put_env-cons, put_mounts-cons, put_volumes-eq-upsert_all)

  pub secure_head-nil : (pod : PodSpec) → pod.containers ≡ [] → secure_head h cfg c pod ≡ panics
  unfolding secure_head put_env env_var_list
  secure_head-nil pod e = rw e

  pub secure_worker-nil : (pod : PodSpec) → pod.containers ≡ [] → secure_worker h cfg c pod ≡ panics
  unfolding secure_worker put_env env_var_list
  secure_worker-nil pod e = rw e

pub env_var_list-Distinct : Distinct env_key env_var_list
unfolding env_var_list
env_var_list-Distinct = assumption (refl, tt)

pub cert_volume_mounts-Distinct : Distinct mount_key cert_volume_mounts
unfolding cert_volume_mounts
cert_volume_mounts-Distinct = assumption (refl, tt)

pub ca_volumes-Distinct : (h : Host) (c : RayCluster) → Distinct volume_key (ca_volumes h c)
unfolding ca_volumes
ca_volumes-Distinct h c = assumption (refl, tt)
