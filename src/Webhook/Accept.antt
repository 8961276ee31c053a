-- ===== src/Webhook/Accept.antt =====
-- When `ValidateCreate` and `ValidateUpdate` report nothing.
use codeflare_operator.Base.{
  ℕ, ◌+◌, String, ◌≡◌, ◌↔◌, refl, true, false, List, [], ◌∷◌, arith, none, some, Option, eq_iff,
  deref,
}
use codeflare_operator.Base.Lists.{All}
use codeflare_operator.Base.Run.{returns}
use codeflare_operator.Base.Iff.{
  iff_trans, iff_regroup, append_iff, join_iff, returns_iff, if_iff, if_run_iff, behind_iff,
  between_iff,
}
use codeflare_operator.Host.{Host}
use codeflare_operator.Config.{KubeRayConfiguration, oauth_on, mtls_on}
use codeflare_operator.Kube.{
  RayCluster, WorkerGroupSpec, Container, EnvVar, Volume, head_pod, worker_pod, is_zero,
}
use codeflare_operator.Support.{contains, by_container_name, by_volume_name, by_env_var_name}
use codeflare_operator.Support.Fields.{FieldError, Value}
use codeflare_operator.Support.Contains.{Holds, contains-eq-none_iff}
use codeflare_operator.Naming.{oauth_service_account_name_from_cluster}
use codeflare_operator.Webhook.Parts.{
  env_var_list, oauth_proxy_container, oauth_proxy_tls_secret_volume, ca_volumes,
  ray_head_init_container, ray_worker_init_container,
}
use codeflare_operator.Webhook.Default.{RayClusterWebhook}
use codeflare_operator.Webhook.Loops.{container_key, volume_key, env_key}
use codeflare_operator.Webhook.Validate.{
  Semantic, to_errors, validate_ingress, validate_oauth_proxy_container,
  validate_oauth_proxy_volume, validate_head_group_service_account_name,
  validate_head_init_container, validate_init_containers_from, validate_worker_init_container,
  validate_volume_from, validate_volumes, validate_ca_volumes, validate_env_vars,
  validate_head_env_vars, validate_env_vars_from, validate_worker_env_vars, validate_oauth,
  validate_mtls, validate_create, validate_update,
}

to_errors_iff : (o : Option FieldError) → (to_errors o ≡ []) ↔ (o ≡ none)
to_errors_iff none = (λ _. refl, λ _. refl)
to_errors_iff (some e) = (λ p. cc, λ p. cc)

module _ (s : Semantic) where
  -- The first container, volume or variable of the wanted name has all that is wanted.
  abbrev pub HoldsContainer : Container → List Container → Type 0
  HoldsContainer ct items = Holds container_key s.container items ct

  abbrev pub HoldsVolume : Volume → List Volume → Type 0
  HoldsVolume v items = Holds volume_key s.volume items v

  abbrev pub HoldsEnv : List EnvVar → EnvVar → Type 0
  HoldsEnv items e = Holds env_key s.env_var items e

  -- There is a first container, and it has the variables.
  abbrev pub HoldsVars : List EnvVar → List Container → Type 0
  HoldsVars vars [] = ⊥
  HoldsVars vars (ct ∷ rest) = All (HoldsEnv ct.env) vars

  container_iff :
      (ct : Container) (items : List Container) (path : List String) (msg : String)
      → (to_errors (contains s.container Value.container items ct by_container_name path msg) ≡ [])
        ↔ HoldsContainer ct items
  container_iff ct items path msg = iff_trans (to_errors_iff _) (
      contains-eq-none_iff container_key s.container Value.container ct by_container_name path msg
        (λ t. refl) items)

  volume_iff :
      (v : Volume) (items : List Volume) (path : List String) (msg : String)
      → (to_errors (contains s.volume Value.volume items v by_volume_name path msg) ≡ [])
        ↔ HoldsVolume v items
  volume_iff v items path msg = iff_trans (to_errors_iff _) (
      contains-eq-none_iff volume_key s.volume Value.volume v by_volume_name path msg (λ t. refl)
        items)

  env_iff :
      (e : EnvVar) (items : List EnvVar) (path : List String) (msg : String)
      → (to_errors (contains s.env_var Value.env_var items e by_env_var_name path msg) ≡ [])
        ↔ HoldsEnv items e
  env_iff e items path msg = iff_trans (to_errors_iff _) (
      contains-eq-none_iff env_key s.env_var Value.env_var e by_env_var_name path msg (λ t. refl)
        items)

  module _ (h : Host) where
    init_containers_iff :
        (cfg : KubeRayConfiguration) (i : ℕ) (ws : List WorkerGroupSpec)
        → (validate_init_containers_from h s cfg i ws ≡ [])
          ↔ All
              (λ w. HoldsContainer (ray_worker_init_container h cfg) (worker_pod w).init_containers)
              ws
    unfolding validate_init_containers_from
    init_containers_iff cfg i [] = (λ _. tt, λ _. refl)
    init_containers_iff cfg i (w ∷ ws) =
        append_iff _ _
          (container_iff (ray_worker_init_container h cfg) (worker_pod w).init_containers _ _)
          (init_containers_iff cfg (i + 1) ws)

    volume_from_iff :
        (v : Volume) (i : ℕ) (ws : List WorkerGroupSpec)
        → (validate_volume_from h s v i ws ≡ [])
          ↔ All (λ w. HoldsVolume v (worker_pod w).volumes) ws
    unfolding validate_volume_from
    volume_from_iff v i [] = (λ _. tt, λ _. refl)
    volume_from_iff v i (w ∷ ws) =
        append_iff _ _ (volume_iff v (worker_pod w).volumes _ _) (volume_from_iff v (i + 1) ws)

    -- A volume stands in the head pod and in every worker pod.
    abbrev pub HoldsEverywhere : RayCluster → Volume → Type 0
    HoldsEverywhere c v =
        HoldsVolume v (head_pod c).volumes
        × All (λ w. HoldsVolume v (worker_pod w).volumes) c.spec.worker_group_specs

    volumes_iff :
        (c : RayCluster) (vs : List Volume)
        → (validate_volumes h s c vs ≡ []) ↔ All (HoldsEverywhere c) vs
    unfolding validate_volumes
    volumes_iff c [] = (λ _. tt, λ _. refl)
    volumes_iff c (v ∷ vs) = iff_regroup (
        append_iff _ _ (volume_iff v (head_pod c).volumes _ _)
          (append_iff _ _ (volume_from_iff v 0 c.spec.worker_group_specs) (volumes_iff c vs)))

    vars_cons_iff :
        (path : List String) (ct : Container) (rest : List Container) (vars : List EnvVar)
        → (validate_env_vars h s path (ct ∷ rest) vars ≡ returns []) ↔ All (HoldsEnv ct.env) vars
    unfolding validate_env_vars
    vars_cons_iff path ct rest [] = (λ _. tt, λ _. refl)
    vars_cons_iff path ct rest (e ∷ vars) =
        join_iff (returns _) (validate_env_vars h s path (ct ∷ rest) vars)
          (iff_trans (returns_iff _) (env_iff e ct.env path _)) (vars_cons_iff path ct rest vars)

    vars_iff :
        (path : List String) (containers : List Container)
        → (validate_env_vars h s path containers env_var_list ≡ returns [])
          ↔ HoldsVars env_var_list containers
    unfolding validate_env_vars env_var_list
    vars_iff path [] = (λ e. cc, λ h. absurd h)
    vars_iff path (ct ∷ rest) = vars_cons_iff path ct rest env_var_list

    vars_from_iff :
        (i : ℕ) (ws : List WorkerGroupSpec)
        → (validate_env_vars_from h s i ws ≡ returns [])
          ↔ All (λ w. HoldsVars env_var_list (worker_pod w).containers) ws
    unfolding validate_env_vars_from
    vars_from_iff i [] = (λ _. tt, λ _. refl)
    vars_from_iff i (w ∷ ws) =
        join_iff _ (validate_env_vars_from h s (i + 1) ws) (vars_iff _ (worker_pod w).containers)
          (vars_from_iff (i + 1) ws)

    account_iff :
        (c : RayCluster)
        → (validate_head_group_service_account_name h s c ≡ [])
          ↔ ((head_pod c).service_account_name ≡ oauth_service_account_name_from_cluster h c)
    unfolding validate_head_group_service_account_name
    account_iff c = ground (
      arith,
      eq_iff (head_pod c).service_account_name (oauth_service_account_name_from_cluster h c),
    )

    -- The OAuth parts that every accepted cluster has.
    abbrev pub OauthAccepted : RayCluster → Type 0
    OauthAccepted c =
        HoldsContainer (oauth_proxy_container h c) (head_pod c).containers
        × (HoldsVolume (oauth_proxy_tls_secret_volume h c) (head_pod c).volumes
            × ((head_pod c).service_account_name ≡ oauth_service_account_name_from_cluster h c))

    -- The certificate parts that every accepted update has.
    abbrev pub MtlsAccepted : KubeRayConfiguration → RayCluster → Type 0
    MtlsAccepted cfg c =
        HoldsContainer (ray_head_init_container h c cfg) (head_pod c).init_containers
        × (All
              (λ w. HoldsContainer (ray_worker_init_container h cfg) (worker_pod w).init_containers)
              c.spec.worker_group_specs
            × (HoldsVars env_var_list (head_pod c).containers
                × (All (λ w. HoldsVars env_var_list (worker_pod w).containers)
                      c.spec.worker_group_specs
                    × All (HoldsEverywhere c) (ca_volumes h c))))

    -- The head group's ingress is not switched on.
    abbrev pub NoIngress : RayCluster → Type 0
    NoIngress c = deref c.spec.head_group_spec.enable_ingress false ≡ false

    ingress_iff : (c : RayCluster) → (validate_ingress c ≡ []) ↔ NoIngress c
    unfolding validate_ingress
    ingress_iff c = ground arith

    oauth_iff :
        (cfg : KubeRayConfiguration) (c : RayCluster)
        → (validate_oauth h s cfg c ≡ []) ↔ (oauth_on cfg ≡ true → OauthAccepted c)
    unfolding validate_oauth validate_oauth_proxy_container validate_oauth_proxy_volume
    oauth_iff cfg c = if_iff (oauth_on cfg) _ (
        append_iff _ _ (container_iff (oauth_proxy_container h c) (head_pod c).containers _ _) (
          append_iff _ _ (volume_iff (oauth_proxy_tls_secret_volume h c) (head_pod c).volumes _ _)
            (account_iff c)))

    mtls_iff :
        (cfg : KubeRayConfiguration) (c : RayCluster)
        → (validate_mtls h s cfg c ≡ returns []) ↔ MtlsAccepted cfg c
    unfolding validate_mtls validate_head_init_container validate_worker_init_container
        validate_head_env_vars validate_worker_env_vars validate_ca_volumes
    mtls_iff cfg c =
        between_iff _ _ _ _ _
          (container_iff (ray_head_init_container h c cfg) (head_pod c).init_containers _ _)
          (init_containers_iff cfg 0 c.spec.worker_group_specs) (vars_iff _ (head_pod c).containers)
          (vars_from_iff 0 c.spec.worker_group_specs) (volumes_iff c (ca_volumes h c))

    -- `ValidateCreate` accepts exactly the clusters that do not switch the ingress on and, with
    -- OAuth on, have the OAuth parts.
    pub validate_create_iff :
        (w : RayClusterWebhook) (c : RayCluster) (cfg : KubeRayConfiguration)
        → w.config ≡ some cfg
        → (validate_create h s w c ≡ returns [])
          ↔ (NoIngress c × (oauth_on cfg ≡ true → OauthAccepted c))
    unfolding validate_create
    validate_create_iff w c cfg conf =
        simp conf (iff_trans (returns_iff _) (append_iff _ _ (ingress_iff c) (oauth_iff cfg c)))

    -- `ValidateUpdate` of a cluster that is not being deleted accepts exactly those that do not
    -- switch the ingress on, have the OAuth parts if OAuth is on, and have the certificate parts in
    -- the head pod and every worker pod if mTLS is on.
    pub validate_update_iff :
        (w : RayClusterWebhook) (old c : RayCluster) (cfg : KubeRayConfiguration)
        → w.config ≡ some cfg
        → is_zero c.deletion_timestamp ≡ true
        → (validate_update h s w old c ≡ returns []) ↔ (
            NoIngress c
            × ((oauth_on cfg ≡ true → OauthAccepted c) × (mtls_on cfg ≡ true → MtlsAccepted cfg c)))
    unfolding validate_update
    validate_update_iff w old c cfg conf alive =
        simp (conf, alive)
          (behind_iff _ _ _ (ingress_iff c) (oauth_iff cfg c)
            (if_run_iff (mtls_on cfg) _ (mtls_iff cfg c)))
