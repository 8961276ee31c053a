-- ===== src/Webhook/Consistent.antt =====
-- The two halves of the webhook agree: what `Default` makes is accepted.
use mathlib.Core.Path.{subst}
use codeflare_operator.Base.{
  ◌≡◌, inl, inr, refl, ap, ◌∙◌, sym, true, List, [], ◌∷◌, some, Bool-cases,
}
use codeflare_operator.Base.Lists.{All}
use codeflare_operator.Base.Run.{returns}
use codeflare_operator.Host.{Host}
use codeflare_operator.Config.{KubeRayConfiguration, oauth_on, mtls_on}
use codeflare_operator.Kube.{
  RayCluster, WorkerGroupSpec, PodSpec, Container, Volume, head_pod, worker_pod, is_zero,
}
use codeflare_operator.Support.Upsert.{find_first}
use codeflare_operator.Webhook.Parts.{
  env_var_list, oauth_proxy_container, oauth_proxy_tls_secret_volume, ca_volumes,
  ray_head_init_container, ray_worker_init_container, init_container_name,
}
use codeflare_operator.Webhook.Default.{RayClusterWebhook, set_version, default}
use codeflare_operator.Webhook.Loops.{container_key}
use codeflare_operator.Webhook.Validate.{Semantic, validate_create, validate_update}
use codeflare_operator.Webhook.Secured.{IsSecuredPod, AllSecured}
use codeflare_operator.Webhook.Injected.{FirstIsOwn, IsGuardedPod}
use codeflare_operator.Webhook.Mutation.{default-IsInjected, default-moved}
use codeflare_operator.Webhook.Accept.{
  HoldsContainer, HoldsVolume, HoldsEnv, HoldsVars, OauthAccepted, MtlsAccepted, NoIngress,
  validate_create_iff, validate_update_iff,
}
use codeflare_operator.Webhook.Laws.{IsReflexive}

-- A property of every element that follows from another one.
All-map {ℓ κ μ} :
    {A : Type ℓ} (P : A → Type κ) (Q : A → Type μ) (xs : List A)
    → ((a : A) → P a → Q a)
    → All P xs
    → All Q xs
All-map P Q [] f h = tt
All-map P Q (x ∷ xs) f h = (f x h.0, All-map P Q xs f h.1)

module _ (h : Host) (s : Semantic) (laws : IsReflexive s) where
  guarded-OauthAccepted : (c : RayCluster) → IsGuardedPod h c (head_pod c) → OauthAccepted s h c
  unfolding oauth_proxy_container oauth_proxy_tls_secret_volume
  guarded-OauthAccepted c g = (
    (oauth_proxy_container h c, g.container_found, laws.container_refl (oauth_proxy_container h c)),
    (
      (
        oauth_proxy_tls_secret_volume h c,
        g.volume_found,
        laws.volume_refl (oauth_proxy_tls_secret_volume h c),
      ),
      g.account_eq,
    ),
  )

  secured-HoldsInit :
      (cas : List Volume) (init : Container) (pod : PodSpec)
      → init.name ≡ init_container_name
      → IsSecuredPod cas init pod
      → HoldsContainer s init pod.init_containers
  secured-HoldsInit cas init pod named f = (
    init,
    ap (λ k. find_first container_key k pod.init_containers) named ∙ f.init_found,
    laws.container_refl init,
  )

  secured-HoldsVars :
      (cas : List Volume) (init : Container) (pod : PodSpec)
      → IsSecuredPod cas init pod
      → HoldsVars s env_var_list pod.containers
  secured-HoldsVars cas init pod f = subst (HoldsVars s env_var_list) (sym f.containers_eq) (
      All-map _ (HoldsEnv s f.first_container.env) env_var_list
        (λ e found. (e, found, laws.env_var_refl e)) f.container_found.env_found)

  secured-HoldsVolumes :
      (cas : List Volume) (init : Container) (pod : PodSpec)
      → IsSecuredPod cas init pod
      → All (λ v. HoldsVolume s v pod.volumes) cas
  secured-HoldsVolumes cas init pod f =
      All-map _ (λ v. HoldsVolume s v pod.volumes) cas (λ v found. (v, found, laws.volume_refl v))
        f.volumes_found

  transpose :
      (P : Volume → Type 0) (Q : Volume → WorkerGroupSpec → Type 0) (vs : List Volume)
      (ws : List WorkerGroupSpec)
      → All P vs
      → All (λ w. All (λ v. Q v w) vs) ws
      → All (λ v. P v × All (Q v) ws) vs
  transpose P Q [] ws p q = tt
  transpose P Q (v ∷ vs) ws p q = (
    (p.0, All-map _ (Q v) ws (λ w t. t.0) q),
    transpose P Q vs ws p.1 (All-map _ (λ w. All (λ u. Q u w) vs) ws (λ w t. t.1) q),
  )

  injected-MtlsAccepted :
      (cfg : KubeRayConfiguration) (c : RayCluster)
      → IsSecuredPod (ca_volumes h c) (ray_head_init_container h c cfg) (head_pod c)
      → AllSecured h cfg c c.spec.worker_group_specs
      → MtlsAccepted s h cfg c
  injected-MtlsAccepted cfg c f fs =
      let ws = c.spec.worker_group_specs in
      let cas = ca_volumes h c in
      let init = ray_worker_init_container h cfg in
      (
        secured-HoldsInit cas (ray_head_init_container h c cfg) (head_pod c)
            (unfold ray_head_init_container in refl) f,
        (
          All-map _ _ ws
              (λ w g.
                secured-HoldsInit cas init (worker_pod w) (unfold ray_worker_init_container in refl)
                  g)
              fs,
          (
            secured-HoldsVars cas (ray_head_init_container h c cfg) (head_pod c) f,
            (
              All-map _ (λ w. HoldsVars s env_var_list (worker_pod w).containers) ws
                  (λ w g. secured-HoldsVars cas init (worker_pod w) g) fs,
              transpose _ (λ v w. HoldsVolume s v (worker_pod w).volumes) cas ws
                  (secured-HoldsVolumes cas (ray_head_init_container h c cfg) (head_pod c) f)
                  (All-map _ (λ w. All (λ v. HoldsVolume s v (worker_pod w).volumes) cas) ws
                    (λ w g. secured-HoldsVolumes cas init (worker_pod w) g) fs),
            ),
          ),
        ),
      )

  NoIngress-default :
      (w : RayClusterWebhook) (c : RayCluster) (cfg : KubeRayConfiguration) {c' : RayCluster}
      → w.config ≡ some cfg
      → default h w c ≡ returns c'
      → NoIngress s h c
      → NoIngress s h c'
  unfolding set_version
  NoIngress-default w c cfg conf e off =
      let (p, ws, same) = default-moved h w c cfg conf e in subst (NoIngress s h) same off

  -- What `Default` returns passes `ValidateCreate` and `ValidateUpdate`, whatever was there before,
  -- if the head group's ingress is off and, where OAuth and mTLS are both on, the first container
  -- of the head pod is there and is not named like the proxy.
  pub default-accepted :
      (w : RayClusterWebhook) (c : RayCluster) (cfg : KubeRayConfiguration) (old : RayCluster)
      {c' : RayCluster}
      → w.config ≡ some cfg
      → NoIngress s h c
      → (oauth_on cfg ≡ true → mtls_on cfg ≡ true → FirstIsOwn (head_pod c).containers)
      → default h w c ≡ returns c'
      → (validate_create h s w c' ≡ returns []) × (validate_update h s w old c' ≡ returns [])
  default-accepted w c cfg old {c'} conf off own e =
      let f = default-IsInjected h w c cfg conf own e in
      let off' = NoIngress-default w c cfg conf e off in
      let oauth = λ (on : oauth_on cfg ≡ true). guarded-OauthAccepted c' (f.head_guarded on) in
      let mtls = λ (on : mtls_on cfg ≡ true).
        injected-MtlsAccepted cfg c' (f.head_secured on) (f.workers_secured on) in
      (
        (validate_create_iff s h w c' cfg conf).1 (off', oauth),
        elim (Bool-cases (is_zero c'.deletion_timestamp)) [
          | inl alive ↦ (validate_update_iff s h w old c' cfg conf alive).1 (off', (oauth, mtls))
          | inr deleted ↦ unfold validate_update in simp deleted
        ],
      )
