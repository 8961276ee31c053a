-- ===== src/Webhook/Injected.antt =====
-- What a cluster has after `Default`.
use mathlib.Core.Path.{subst}
use codeflare_operator.Base.{
  String, ◌≡◌, ◌≢◌, inl, inr, refl, ap, ◌∙◌, sym, true, List, [], ◌∷◌, some, eq-of-ne,
}
use codeflare_operator.Base.Run.{returns, returns-injective}
use codeflare_operator.Base.Lists.{List-cases}
use codeflare_operator.Host.{Host}
use codeflare_operator.Config.{KubeRayConfiguration, oauth_on, mtls_on}
use codeflare_operator.Kube.{RayCluster, PodSpec, Container, Volume, head_pod}
use codeflare_operator.Support.{upsert, with_container_name, with_volume_name}
use codeflare_operator.Support.Upsert.{find_first, find_first-upsert}
use codeflare_operator.Support.UpsertAll.{upsert_all, find_first-upsert_all}
use codeflare_operator.Naming.{oauth_service_account_name_from_cluster}
use codeflare_operator.Webhook.Parts.{
  oauth_proxy_container_name, oauth_proxy_volume_name, ca_volumes, ray_head_init_container,
  oauth_proxy_container, oauth_proxy_tls_secret_volume,
}
use codeflare_operator.Webhook.Default.{secure_head}
use codeflare_operator.Webhook.Loops.{
  container_key, volume_key, volume_compare, secured, secured_pod, secure_head-cons,
  secure_head-nil,
}
use codeflare_operator.Webhook.Secured.{IsSecuredPod, AllSecured}

-- The first container is there, and is not the OAuth proxy.
abbrev pub FirstIsOwn : List Container → Type 0
FirstIsOwn [] = ⊥
FirstIsOwn (ct ∷ rest) = ct.name ≢ oauth_proxy_container_name

-- A pod has the OAuth sidecar, its volume and the service account.
pub record IsGuardedPod (h : Host) (c : RayCluster) (pod : PodSpec) : Type 0 where
  pub container_found :
      find_first container_key oauth_proxy_container_name pod.containers
      ≡ some (oauth_proxy_container h c)
  pub volume_found :
      find_first volume_key oauth_proxy_volume_name pod.volumes
      ≡ some (oauth_proxy_tls_secret_volume h c)
  pub account_eq : pod.service_account_name ≡ oauth_service_account_name_from_cluster h c

-- A cluster has what the configuration asks for: the OAuth parts in the head pod, and the
-- certificate parts in the head pod and in every worker group.
pub record IsInjected (h : Host) (cfg : KubeRayConfiguration) (c : RayCluster) : Type 0 where
  pub head_guarded : oauth_on cfg ≡ true → IsGuardedPod h c (head_pod c)
  pub head_secured :
      mtls_on cfg ≡ true
      → IsSecuredPod (ca_volumes h c) (ray_head_init_container h c cfg) (head_pod c)
  pub workers_secured : mtls_on cfg ≡ true → AllSecured h cfg c c.spec.worker_group_specs

-- `add_oauth` on the pod.
abbrev pub guarded_pod : Host → RayCluster → PodSpec → PodSpec
guarded_pod h c pod = record pod {
  containers =
      upsert pod.containers (oauth_proxy_container h c)
        (with_container_name oauth_proxy_container_name);
  volumes =
      upsert pod.volumes (oauth_proxy_tls_secret_volume h c)
        (with_volume_name oauth_proxy_volume_name);
  service_account_name = oauth_service_account_name_from_cluster h c;
}

upsert-FirstIsOwn :
    (cs : List Container) (item : Container)
    → FirstIsOwn cs
    → FirstIsOwn (upsert cs item (with_container_name oauth_proxy_container_name))
unfolding upsert
upsert-FirstIsOwn [] item own = absurd own
upsert-FirstIsOwn (ct ∷ cs) item own = rw (eq-of-ne ct.name oauth_proxy_container_name own) own

find_first-secured :
    (k : String) (ct : Container) (rest : List Container)
    → ct.name ≢ k
    → find_first container_key k (secured ct ∷ rest) ≡ find_first container_key k (ct ∷ rest)
unfolding find_first secured
find_first-secured k ct rest other = simp (eq-of-ne ct.name k other)

FirstIsOwn-head :
    (pod : PodSpec) (ct : Container) (rest : List Container)
    → FirstIsOwn pod.containers
    → pod.containers ≡ ct ∷ rest
    → ct.name ≢ oauth_proxy_container_name
FirstIsOwn-head pod ct rest own e = subst FirstIsOwn e own

module _ (h : Host) (c : RayCluster) where
  pub guarded_pod-IsGuardedPod : (pod : PodSpec) → IsGuardedPod h c (guarded_pod h c pod)
  unfolding oauth_proxy_container oauth_proxy_tls_secret_volume
  guarded_pod-IsGuardedPod pod = record {
    container_found =
        find_first-upsert container_key (with_container_name oauth_proxy_container_name)
          (oauth_proxy_container h c) (λ t. refl) oauth_proxy_container_name pod.containers;
    volume_found =
        find_first-upsert volume_key (with_volume_name oauth_proxy_volume_name)
          (oauth_proxy_tls_secret_volume h c) (λ t. refl) oauth_proxy_volume_name pod.volumes;
    account_eq = refl;
  }

  pub guarded_pod-FirstIsOwn :
      (pod : PodSpec) → FirstIsOwn pod.containers → FirstIsOwn (guarded_pod h c pod).containers
  guarded_pod-FirstIsOwn pod own = upsert-FirstIsOwn pod.containers (oauth_proxy_container h c) own

  -- The CA volumes leave the proxy's volume alone.
  pub proxy_volume-upsert_all :
      (volumes : List Volume)
      → find_first volume_key oauth_proxy_volume_name
          (upsert_all volume_compare (ca_volumes h c) volumes)
        ≡ find_first volume_key oauth_proxy_volume_name volumes
  proxy_volume-upsert_all volumes =
      find_first-upsert_all volume_key volume_compare (λ v t. refl) oauth_proxy_volume_name
        (ca_volumes h c) volumes (unfold ca_volumes in assumption (refl, tt))

  secured_pod-IsGuardedPod :
      (cfg : KubeRayConfiguration) (ct : Container) (rest : List Container) (pod : PodSpec)
      → pod.containers ≡ ct ∷ rest
      → FirstIsOwn pod.containers
      → IsGuardedPod h c pod
      → IsGuardedPod h c
          (secured_pod (ca_volumes h c) (ray_head_init_container h c cfg) ct rest pod)
  unfolding secured_pod
  secured_pod-IsGuardedPod cfg ct rest pod q own g = record {
    container_found =
        find_first-secured oauth_proxy_container_name ct rest (FirstIsOwn-head pod ct rest own q)
        ∙ ap (find_first container_key oauth_proxy_container_name) (sym q)
        ∙ g.container_found;
    volume_found = proxy_volume-upsert_all pod.volumes ∙ g.volume_found;
    account_eq = g.account_eq;
  }

  -- The certificate parts leave the OAuth parts alone, if the first container is not the proxy.
  pub secure_head-IsGuardedPod :
      (cfg : KubeRayConfiguration) (pod : PodSpec) {pod' : PodSpec}
      → FirstIsOwn pod.containers
      → IsGuardedPod h c pod
      → secure_head h cfg c pod ≡ returns pod'
      → IsGuardedPod h c pod'
  secure_head-IsGuardedPod cfg pod own g e = elim (List-cases pod.containers) [
    | inl nil ↦ absurd (cc (secure_head-nil h cfg c pod nil))
    | inr (ct, rest, q) ↦
        subst (IsGuardedPod h c)
          (returns-injective (sym (secure_head-cons h cfg c ct rest pod q) ∙ e))
          (secured_pod-IsGuardedPod cfg ct rest pod q own g)
  ]
