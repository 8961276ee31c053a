-- ===== src/Webhook/Secured.antt =====
-- Pods with the certificate parts that `Default` adds for mTLS.
use mathlib.Core.Path.{subst}
use codeflare_operator.Base.{◌≡◌, inl, inr, refl, ap, ◌∙◌, sym, List, [], ◌∷◌, some}
use codeflare_operator.Base.Run.{returns, returns-injective, >>=-eq-returns}
use codeflare_operator.Base.Lists.{All, List-cases}
use codeflare_operator.Host.{Host}
use codeflare_operator.Config.{KubeRayConfiguration}
use codeflare_operator.Kube.{RayCluster, WorkerGroupSpec, PodSpec, Container, Volume, worker_pod}
use codeflare_operator.Support.{with_container_name}
use codeflare_operator.Support.Upsert.{find_first, find_first-upsert, upsert-eq_self}
use codeflare_operator.Support.UpsertAll.{
  Distinct, AllFound, upsert_all-AllFound, upsert_all-eq_self,
}
use codeflare_operator.Webhook.Parts.{
  cert_volume_mounts, env_var_list, ca_volumes, ray_head_init_container, ray_worker_init_container,
  init_container_name,
}
use codeflare_operator.Webhook.Default.{secure_head, secure_worker, secure_workers}
use codeflare_operator.Webhook.Loops.{
  container_key, volume_key, mount_key, env_key, env_compare, volume_compare, mount_compare,
  secured, secured_pod, secure_head-cons, secure_head-nil, secure_worker-cons, secure_worker-nil,
  env_var_list-Distinct, cert_volume_mounts-Distinct, ca_volumes-Distinct,
}

-- The first container has the variables and mounts.
pub record IsSecuredContainer (ct : Container) : Type 0 where
  pub env_found : AllFound env_key env_var_list ct.env
  pub mounts_found : AllFound mount_key cert_volume_mounts ct.volume_mounts

-- A pod has the certificate parts: a first container with the variables and mounts, the init
-- container and the volumes, each the first of its name.
pub record IsSecuredPod (cas : List Volume) (init : Container) (pod : PodSpec) : Type 0 where
  pub first_container : Container
  pub other_containers : List Container
  pub containers_eq : pod.containers ≡ first_container ∷ other_containers
  pub container_found : IsSecuredContainer first_container
  pub init_found : find_first container_key init_container_name pod.init_containers ≡ some init
  pub volumes_found : AllFound volume_key cas pod.volumes

pub secured-IsSecuredContainer : (ct : Container) → IsSecuredContainer (secured ct)
unfolding secured
secured-IsSecuredContainer ct = record {
  env_found =
      upsert_all-AllFound env_key env_compare (λ e t. refl) env_var_list ct.env
        env_var_list-Distinct;
  mounts_found =
      upsert_all-AllFound mount_key mount_compare (λ m t. refl) cert_volume_mounts ct.volume_mounts
        cert_volume_mounts-Distinct;
}

pub secured-eq_self : (ct : Container) → IsSecuredContainer ct → secured ct ≡ ct
unfolding secured
secured-eq_self ct f =
    let p = upsert_all-eq_self env_key env_compare (λ e t. refl) env_var_list ct.env f.env_found in
    let q =
      upsert_all-eq_self mount_key mount_compare (λ m t. refl) cert_volume_mounts ct.volume_mounts
        f.mounts_found in
    λ i. record ct { env = p i; volume_mounts = q i }

module _ (cas : List Volume) (init : Container) (is_init : init.name ≡ init_container_name) where
  pub secured_pod-IsSecuredPod :
      (ct : Container) (rest : List Container) (pod : PodSpec)
      → Distinct volume_key cas
      → IsSecuredPod cas init (secured_pod cas init ct rest pod)
  unfolding secured_pod
  secured_pod-IsSecuredPod ct rest pod distinct = record {
    first_container = secured ct;
    other_containers = rest;
    containers_eq = refl;
    container_found = secured-IsSecuredContainer ct;
    init_found =
        find_first-upsert container_key (with_container_name init_container_name) init
          (λ t. rw is_init) init_container_name pod.init_containers
        ∙ simp is_init;
    volumes_found =
        upsert_all-AllFound volume_key volume_compare (λ v t. refl) cas pod.volumes distinct;
  }

  pub secured_pod-eq_self :
      (ct : Container) (rest : List Container) (pod : PodSpec)
      → pod.containers ≡ ct ∷ rest
      → IsSecuredPod cas init pod
      → secured_pod cas init ct rest pod ≡ pod
  unfolding secured_pod
  secured_pod-eq_self ct rest pod e f =
      let same : ct ≡ f.first_container = cc (e, f.containers_eq) in
      let p : secured ct ≡ ct = rw same (secured-eq_self f.first_container f.container_found) in
      let q =
        upsert-eq_self container_key (with_container_name init_container_name) init
          (λ t. simp is_init) pod.init_containers (simp is_init f.init_found) in
      let r =
        upsert_all-eq_self volume_key volume_compare (λ v t. refl) cas pod.volumes
          f.volumes_found in
      let l = ap (λ x. x ∷ rest) p ∙ sym e in
      λ i. record pod { containers = l i; init_containers = q i; volumes = r i }

  -- The containers alone decide whether the certificate parts change anything.
  pub secured_pod-again :
      (ct : Container) (rest xs : List Container) (pod : PodSpec)
      → pod.containers ≡ secured ct ∷ rest
      → IsSecuredPod cas init pod
      → secured_pod cas init ct rest (record pod { containers = xs }) ≡ pod
  unfolding secured_pod
  secured_pod-again ct rest xs pod e f =
      let q =
        upsert-eq_self container_key (with_container_name init_container_name) init
          (λ t. simp is_init) pod.init_containers (simp is_init f.init_found) in
      let r =
        upsert_all-eq_self volume_key volume_compare (λ v t. refl) cas pod.volumes
          f.volumes_found in
      let l = sym e in λ i. record pod { containers = l i; init_containers = q i; volumes = r i }

-- What the loop over the worker groups returns has the certificate parts in every group.
module _ (h : Host) (cfg : KubeRayConfiguration) (c : RayCluster) where
  abbrev pub AllSecured : List WorkerGroupSpec → Type 0
  AllSecured =
      All (λ w. IsSecuredPod (ca_volumes h c) (ray_worker_init_container h cfg) (worker_pod w))

  pub head_init-named : (ray_head_init_container h c cfg).name ≡ init_container_name
  unfolding ray_head_init_container
  head_init-named = refl

  worker_init-named : (ray_worker_init_container h cfg).name ≡ init_container_name
  unfolding ray_worker_init_container
  worker_init-named = refl

  pub secure_head-IsSecuredPod :
      (pod : PodSpec) {pod' : PodSpec}
      → secure_head h cfg c pod ≡ returns pod'
      → IsSecuredPod (ca_volumes h c) (ray_head_init_container h c cfg) pod'
  secure_head-IsSecuredPod pod e = elim (List-cases pod.containers) [
    | inl nil ↦ absurd (cc (secure_head-nil h cfg c pod nil))
    | inr (ct, rest, q) ↦
        subst (IsSecuredPod (ca_volumes h c) (ray_head_init_container h c cfg))
          (returns-injective (sym (secure_head-cons h cfg c ct rest pod q) ∙ e))
          (secured_pod-IsSecuredPod (ca_volumes h c) _ head_init-named ct rest pod
            (ca_volumes-Distinct h c))
  ]

  pub secure_head-eq_self :
      (pod : PodSpec)
      → IsSecuredPod (ca_volumes h c) (ray_head_init_container h c cfg) pod
      → secure_head h cfg c pod ≡ returns pod
  secure_head-eq_self pod f =
      secure_head-cons h cfg c f.first_container f.other_containers pod f.containers_eq
      ∙ ap returns
          (secured_pod-eq_self (ca_volumes h c) _ head_init-named _ _ pod f.containers_eq f)

  secure_worker-IsSecuredPod :
      (pod : PodSpec) {pod' : PodSpec}
      → secure_worker h cfg c pod ≡ returns pod'
      → IsSecuredPod (ca_volumes h c) (ray_worker_init_container h cfg) pod'
  secure_worker-IsSecuredPod pod e = elim (List-cases pod.containers) [
    | inl nil ↦ absurd (cc (secure_worker-nil h cfg c pod nil))
    | inr (ct, rest, q) ↦
        subst (IsSecuredPod (ca_volumes h c) (ray_worker_init_container h cfg))
          (returns-injective (sym (secure_worker-cons h cfg c ct rest pod q) ∙ e))
          (secured_pod-IsSecuredPod (ca_volumes h c) _ worker_init-named ct rest pod
            (ca_volumes-Distinct h c))
  ]

  secure_worker-eq_self :
      (pod : PodSpec)
      → IsSecuredPod (ca_volumes h c) (ray_worker_init_container h cfg) pod
      → secure_worker h cfg c pod ≡ returns pod
  secure_worker-eq_self pod f =
      secure_worker-cons h cfg c f.first_container f.other_containers pod f.containers_eq
      ∙ ap returns
          (secured_pod-eq_self (ca_volumes h c) _ worker_init-named _ _ pod f.containers_eq f)

  pub secure_workers-AllSecured :
      (ws : List WorkerGroupSpec) {ws' : List WorkerGroupSpec}
      → secure_workers h cfg c ws ≡ returns ws'
      → AllSecured ws'
  unfolding secure_workers
  secure_workers-AllSecured [] e = subst AllSecured (returns-injective e) tt
  secure_workers-AllSecured (w ∷ ws) e =
      let (pod, p, e1) = >>=-eq-returns (secure_worker h cfg c (worker_pod w)) _ e in
      let (ws1, q, e2) = >>=-eq-returns (secure_workers h cfg c ws) _ e1 in
      subst AllSecured (returns-injective e2)
        (secure_worker-IsSecuredPod (worker_pod w) p, secure_workers-AllSecured ws q)

  pub secure_workers-eq_self :
      (ws : List WorkerGroupSpec) → AllSecured ws → secure_workers h cfg c ws ≡ returns ws
  unfolding secure_workers
  secure_workers-eq_self [] f = refl
  secure_workers-eq_self (w ∷ ws) (f, rest) =
      rw (secure_worker-eq_self (worker_pod w) f, secure_workers-eq_self ws rest)
