-- ===== src/Webhook/Mutation.antt =====
-- What `Default` returns.
use mathlib.Core.Path.{subst}
use codeflare_operator.Base.{
  ◌⊎◌, ◌≡◌, inl, inr, refl, ap, ◌∙◌, sym, true, false, List, none, some, Bool, if◌then◌else◌,
}
use codeflare_operator.Base.Run.{
  Run, returns, panics, ◌>>=◌, returns-injective, >>=-eq-returns, pointee,
}
use codeflare_operator.Host.{Host}
use codeflare_operator.Config.{KubeRayConfiguration, oauth_on, mtls_on}
use codeflare_operator.Kube.{RayCluster, WorkerGroupSpec, PodSpec, head_pod}
use codeflare_operator.Webhook.Parts.{ca_volumes, ray_head_init_container}
use codeflare_operator.Webhook.Default.{
  RayClusterWebhook, set_version, add_oauth, add_mtls, secure_head, secure_workers, default,
}
use codeflare_operator.Webhook.Secured.{
  IsSecuredPod, AllSecured, secure_head-IsSecuredPod, secure_workers-AllSecured,
}
use codeflare_operator.Webhook.Injected.{
  FirstIsOwn, IsGuardedPod, IsInjected, guarded_pod, guarded_pod-IsGuardedPod,
  guarded_pod-FirstIsOwn, secure_head-IsGuardedPod,
}
use codeflare_operator.Webhook.Moved.{
  moved, oauth_proxy_container-moved, oauth_proxy_tls_secret_volume-moved,
  oauth_service_account_name-moved, ca_volumes-moved, ray_head_init_container-moved,
}

module _ (h : Host) where
  -- The head pod after the OAuth branch.
  abbrev pub front_pod : Bool → RayCluster → PodSpec
  front_pod oauth c = if oauth then guarded_pod h c (head_pod c) else head_pod c

  abbrev pub front : Bool → RayCluster → RayCluster
  front oauth c = moved c (front_pod oauth c) c.spec.worker_group_specs

  add_oauth-front :
      (oauth : Bool) (c : RayCluster) → (if oauth then add_oauth h c else c) ≡ front oauth c
  unfolding add_oauth
  add_oauth-front true c = refl
  add_oauth-front false c = refl

  abbrev pub finish : KubeRayConfiguration → RayCluster → Run RayCluster
  finish cfg g = if mtls_on cfg then add_mtls h cfg g else returns g

  pub default-eq :
      (w : RayClusterWebhook) (c : RayCluster) (cfg : KubeRayConfiguration)
      → w.config ≡ some cfg
      → default h w c ≡ finish cfg (front (oauth_on cfg) (set_version w c))
  unfolding default
  default-eq w c cfg e =
      ap
        (λ o. pointee o >>= λ k.
          finish k (if oauth_on k then add_oauth h (set_version w c) else set_version w c))
        e
      ∙ ap (finish cfg) (add_oauth-front (oauth_on cfg) (set_version w c))

  -- Without a configuration there is nothing to read the flags from.
  pub default-nil :
      (w : RayClusterWebhook) (c : RayCluster) → w.config ≡ none → default h w c ≡ panics
  unfolding default
  default-nil w c e =
      ap
        (λ o. pointee o >>= λ k.
          finish k (if oauth_on k then add_oauth h (set_version w c) else set_version w c))
        e

  pub IsGuardedPod-moved :
      (c : RayCluster) (p : PodSpec) (ws : List WorkerGroupSpec) (pod : PodSpec)
      → IsGuardedPod h c pod
      → IsGuardedPod h (moved c p ws) pod
  IsGuardedPod-moved c p ws pod g = record {
    container_found = g.container_found ∙ ap some (sym (oauth_proxy_container-moved h c p ws));
    volume_found = g.volume_found ∙ ap some (sym (oauth_proxy_tls_secret_volume-moved h c p ws));
    account_eq = g.account_eq ∙ sym (oauth_service_account_name-moved h c p ws);
  }

  -- What the mTLS branch returns.
  pub add_mtls-inv :
      (cfg : KubeRayConfiguration) (c : RayCluster) {c' : RayCluster}
      → add_mtls h cfg c ≡ returns c'
      → (p : PodSpec) × (ws : List WorkerGroupSpec) × (secure_head h cfg c (head_pod c) ≡ returns p)
        × (secure_workers h cfg c c.spec.worker_group_specs ≡ returns ws)
        × (moved c p ws ≡ c')
  unfolding add_mtls
  add_mtls-inv cfg c e =
      let (p, hp, e1) = >>=-eq-returns (secure_head h cfg c (head_pod c)) _ e in
      let (ws, hw, e2) = >>=-eq-returns (secure_workers h cfg c c.spec.worker_group_specs) _ e1 in
      (p, ws, hp, hw, returns-injective e2)

  pub front-IsGuardedPod :
      (oauth : Bool) (c : RayCluster) → oauth ≡ true → IsGuardedPod h c (front_pod oauth c)
  front-IsGuardedPod true c on = guarded_pod-IsGuardedPod h c (head_pod c)
  front-IsGuardedPod false c on = cc

  front-FirstIsOwn :
      (oauth : Bool) (c : RayCluster)
      → FirstIsOwn (head_pod c).containers
      → FirstIsOwn (front_pod oauth c).containers
  front-FirstIsOwn true c own = guarded_pod-FirstIsOwn h c (head_pod c) own
  front-FirstIsOwn false c own = own

  pub IsSecuredPod-moved :
      (cfg : KubeRayConfiguration) (c : RayCluster) (p : PodSpec) (ws : List WorkerGroupSpec)
      (pod : PodSpec)
      → IsSecuredPod (ca_volumes h c) (ray_head_init_container h c cfg) pod
      → IsSecuredPod
          (ca_volumes h (moved c p ws))
          (ray_head_init_container h (moved c p ws) cfg)
          pod
  IsSecuredPod-moved cfg c p ws pod f =
      rw (ca_volumes-moved h c p ws, ray_head_init_container-moved h c p ws cfg) f

  pub AllSecured-moved :
      (cfg : KubeRayConfiguration) (c : RayCluster) (p : PodSpec) (ws us : List WorkerGroupSpec)
      → AllSecured h cfg c us
      → AllSecured h cfg (moved c p ws) us
  AllSecured-moved cfg c p ws us f = rw (ca_volumes-moved h c p ws) f

  -- The two ways in which the mTLS branch ends.
  pub finish-inv :
      (mtls : Bool) (cfg : KubeRayConfiguration) (g : RayCluster) {c' : RayCluster}
      → (if mtls then add_mtls h cfg g else returns g) ≡ returns c'
      → ((mtls ≡ false) × (g ≡ c')) ⊎ ((mtls ≡ true) × (add_mtls h cfg g ≡ returns c'))
  finish-inv true cfg g e = inr (refl, e)
  finish-inv false cfg g e = inl (refl, returns-injective e)

  front-IsInjected :
      (cfg : KubeRayConfiguration) (c : RayCluster)
      → mtls_on cfg ≡ false
      → IsInjected h cfg (front (oauth_on cfg) c)
  front-IsInjected cfg c off = record {
    head_guarded = λ on.
        IsGuardedPod-moved c (front_pod (oauth_on cfg) c) c.spec.worker_group_specs
          (front_pod (oauth_on cfg) c) (front-IsGuardedPod (oauth_on cfg) c on);
    head_secured = λ on. absurd (cc (on, off));
    workers_secured = λ on. absurd (cc (on, off));
  }

  add_mtls-IsInjected :
      (cfg : KubeRayConfiguration) (g : RayCluster) (p : PodSpec) (ws : List WorkerGroupSpec)
      → secure_head h cfg g (head_pod g) ≡ returns p
      → secure_workers h cfg g g.spec.worker_group_specs ≡ returns ws
      → (oauth_on cfg ≡ true → IsGuardedPod h g p)
      → IsInjected h cfg (moved g p ws)
  add_mtls-IsInjected cfg g p ws hp hw guard = record {
    head_guarded = λ on. IsGuardedPod-moved g p ws p (guard on);
    head_secured =
        λ _. IsSecuredPod-moved cfg g p ws p (secure_head-IsSecuredPod h cfg g (head_pod g) hp);
    workers_secured = λ _. AllSecured-moved cfg g p ws ws (secure_workers-AllSecured h cfg g _ hw);
  }

  finish-IsInjected :
      (cfg : KubeRayConfiguration) (c : RayCluster) {c' : RayCluster}
      → (oauth_on cfg ≡ true → mtls_on cfg ≡ true → FirstIsOwn (head_pod c).containers)
      → finish cfg (front (oauth_on cfg) c) ≡ returns c'
      → IsInjected h cfg c'
  finish-IsInjected cfg c own e =
      let oauth : Bool = oauth_on cfg in
      let pod = front_pod oauth c in
      let g = front oauth c in
      elim (finish-inv (mtls_on cfg) cfg g e) [
        | inl (off, same) ↦ subst (IsInjected h cfg) same (front-IsInjected cfg c off)
        | inr (on, run) ↦
            let (p, ws, hp, hw, same) = add_mtls-inv cfg g run in
            subst (IsInjected h cfg) same (
              add_mtls-IsInjected cfg g p ws hp hw λ guard.
                secure_head-IsGuardedPod h g cfg pod (front-FirstIsOwn oauth c (own guard on))
                  (IsGuardedPod-moved c pod c.spec.worker_group_specs pod
                    (front-IsGuardedPod oauth c guard))
                  hp)
      ]

  -- `Default` injects all that the configuration asks for: with OAuth on, the head pod has the
  -- proxy container, its volume and the service account; with mTLS on, the head pod and every worker
  -- pod have the variables, mounts, volumes and the init container. Where both are on, this takes a
  -- head pod whose first container is there and is not named like the proxy.
  pub default-IsInjected :
      (w : RayClusterWebhook) (c : RayCluster) (cfg : KubeRayConfiguration) {c' : RayCluster}
      → w.config ≡ some cfg
      → (oauth_on cfg ≡ true → mtls_on cfg ≡ true → FirstIsOwn (head_pod c).containers)
      → default h w c ≡ returns c'
      → IsInjected h cfg c'
  unfolding set_version
  default-IsInjected w c cfg conf own e =
      finish-IsInjected cfg (set_version w c) own (sym (default-eq w c cfg conf) ∙ e)

  -- `Default` changes nothing but the annotations, the head pod and the worker groups.
  pub default-moved :
      (w : RayClusterWebhook) (c : RayCluster) (cfg : KubeRayConfiguration) {c' : RayCluster}
      → w.config ≡ some cfg
      → default h w c ≡ returns c'
      → (p : PodSpec) × (ws : List WorkerGroupSpec) × (moved (set_version w c) p ws ≡ c')
  default-moved w c cfg conf e =
      let named = set_version w c in
      elim (finish-inv (mtls_on cfg) cfg (front (oauth_on cfg) named)
        (sym (default-eq w c cfg conf) ∙ e)) [
          | inl (off, same) ↦ (front_pod (oauth_on cfg) named, named.spec.worker_group_specs, same)
          | inr (on, run) ↦
              let (p, ws, hp, hw, same) = add_mtls-inv cfg (front (oauth_on cfg) named) run in
              (p, ws, same)
        ]
