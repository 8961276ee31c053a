-- ===== src/Controller/Reconcile.antt =====
-- `Reconcile` of pkg/controllers/raycluster_controller.go, in its phases.
use codeflare_operator.Base.{
  ℕ, String, ◌<>◌, Bool, true, false, not, ◌&&◌, Option, none, some, List, [], ◌∷◌, ◌==◌,
  if◌then◌else◌, deref,
}
use codeflare_operator.Base.Lists.{is_empty}
use codeflare_operator.Host.{Host}
use codeflare_operator.Config.{KubeRayConfiguration, oauth_on, mtls_on}
use codeflare_operator.Kube.{RayCluster, Object, Pod, head_pod, is_zero}
use codeflare_operator.Naming.{
  controller_name, crb_name_from_cluster, ca_secret_name_from_cluster, dashboard_name_from_cluster,
  ray_client_name_from_cluster,
}
use codeflare_operator.Controller.Api.{Api, Error, Result, SecretData, ok, err, api, message}
use codeflare_operator.Controller.Effect.{
  Act, Outcome, finished, ◌>>=◌, ◌>>◌, pure, stop, run, call, get_ray_cluster, update_ray_cluster,
  delete_cluster_role_binding, get_secret, apply, list_pods, get_dsci,
}
use codeflare_operator.Controller.Certificate.{generate_ca_certificate}
use codeflare_operator.Controller.Secrets.{delete_head_pod_if_missing_image_pull_secrets}
use codeflare_operator.Controller.Desired.{
  ca_private_key_key, ca_cert_key, desired_ca_secret, desired_cluster_route, desired_oauth_secret,
  desired_oauth_service, desired_service_account, desired_oauth_cluster_role_binding,
  desired_ray_client_route, desired_cluster_ingress, desired_ray_client_ingress,
}
use codeflare_operator.Controller.Policies.{
  desired_head_network_policy, desired_workers_network_policy,
}

-- `RayClusterReconciler`, without its clients.
pub record Reconciler : Type 0 where
  pub host : Host
  pub cookie_salt : String
  pub config : Option KubeRayConfiguration
  pub is_openshift : Bool

-- Nanoseconds: the source's constant 10 is a `time.Duration`.
abbrev pub requeue_time : ℕ
requeue_time = 10

abbrev pub oauth_finalizer : String
oauth_finalizer = "ray.openshift.ai/oauth-finalizer"

abbrev pub kube_ray_default_namespace : String
kube_ray_default_namespace = "ray-system"

abbrev pub default_dsci_namespace : String
default_dsci_namespace = "default-dsci"

abbrev pub odh_namespace : String
odh_namespace = "opendatahub"

abbrev pub rhds_apps_namespace : String
rhds_apps_namespace = "redhat-ods-applications"

-- `isRayDashboardOAuthEnabled`, `isMTLSEnabled`
unfoldable pub is_ray_dashboard_oauth_enabled : Option KubeRayConfiguration → Bool
is_ray_dashboard_oauth_enabled none = true
is_ray_dashboard_oauth_enabled (some cfg) = oauth_on cfg

unfoldable pub is_mtls_enabled : Option KubeRayConfiguration → Bool
is_mtls_enabled none = true
is_mtls_enabled (some cfg) = mtls_on cfg

-- `isRayClusterSuspended`
unfoldable pub is_ray_cluster_suspended : RayCluster → Bool
is_ray_cluster_suspended c = deref c.spec.suspend false

-- `getIngressHost`
unfoldable pub get_ingress_host :
    Option KubeRayConfiguration → RayCluster → String → Result String String
get_ingress_host none c name =
    err "missing IngressDomain configuration in ConfigMap 'codeflare-operator-config'"
get_ingress_host (some cfg) c name =
    if cfg.ingress_domain == ""
    then err "missing IngressDomain configuration in ConfigMap 'codeflare-operator-config'"
    else ok (name <> "-" <> c.namespace <> "." <> cfg.ingress_domain)

-- A key of a secret's data; a missing key reads as no bytes.
unfoldable pub data_of : String → SecretData → List ℕ
data_of k [] = []
data_of k ((j, v) ∷ m) = if j == k then v else data_of k m

abbrev pub kube_ray_selector : String
kube_ray_selector = "app.kubernetes.io/component=kuberay-operator"

-- `pods.Items[0].Namespace`, or the well-known default.
unfoldable pub kube_ray_namespace : List Pod → String
kube_ray_namespace [] = kube_ray_default_namespace
kube_ray_namespace (p ∷ pods) = p.namespace

module _ (a : Api) where
  -- `return ctrl.Result{RequeueAfter: requeueTime}, err`
  abbrev pub requeue : Error a.Failure → Outcome a.Failure
  requeue e = record { requeue_after = requeue_time; error = some e }

  -- `if err != nil { return ctrl.Result{RequeueAfter: requeueTime}, err }`
  unfoldable pub or_requeue : {A : Type 0} → Result a.Failure A → Act a A
  or_requeue (ok x) = pure x
  or_requeue (err e) = stop (requeue (api e))

module _ (a : Api) (r : Reconciler) where
  -- `Apply` with the controller as field manager.
  unfoldable pub try_apply : Object → Act a (Result a.Failure (Unit {0}))
  try_apply o = call (apply controller_name true o) (a.apply controller_name true o)

  unfoldable pub apply_object : Object → Act a (Unit {0})
  unfolding try_apply or_requeue
  apply_object o = do applied ← try_apply o; or_requeue a applied

  -- `client.IgnoreNotFound` of the error of a deletion.
  unfoldable pub ignore_not_found : Result a.Failure (Unit {0}) → Act a (Unit {0})
  ignore_not_found (ok _) = pure tt
  ignore_not_found (err e) = if a.is_not_found e then pure tt else stop (requeue a (api e))

  unfoldable pub update : RayCluster → Act a RayCluster
  unfolding or_requeue
  update c = do updated ← call (update_ray_cluster c) (a.update_ray_cluster c); or_requeue a updated

  -- The clean-up of a cluster that is being deleted.
  unfoldable pub finalize : RayCluster → Act a RayCluster
  unfolding ignore_not_found update
  finalize c = do
    let name = crb_name_from_cluster r.host c
    deleted ←
        call (delete_cluster_role_binding name "Foreground")
          (a.delete_cluster_role_binding name "Foreground")
    ignore_not_found deleted
    update (a.remove_finalizer c oauth_finalizer)
    stop finished

  -- The first phase: the finalizer is added, or the cluster is cleaned up.
  unfoldable pub reconcile_finalizer : RayCluster → Act a RayCluster
  unfolding finalize
  reconcile_finalizer c =
      if is_zero c.deletion_timestamp
      then (if a.contains_finalizer c oauth_finalizer
          then pure c
          else update (a.add_finalizer c oauth_finalizer))
      else if a.contains_finalizer c oauth_finalizer
      then finalize c
      else pure c

  unfoldable pub ca_secret_from : RayCluster → Result a.Failure SecretData → Act a (Unit {0})
  unfolding apply_object
  ca_secret_from c (ok secret_data) = apply_object (
      desired_ca_secret r.host c (data_of ca_private_key_key secret_data)
        (data_of ca_cert_key secret_data))
  ca_secret_from c (err e) =
      if a.is_not_found e
      then (do
        generated ← generate_ca_certificate a
        pair ← or_requeue a generated
        apply_object (desired_ca_secret r.host c pair.0 pair.1))
      else stop (requeue a (api e))

  -- The second phase: the CA secret.
  unfoldable pub reconcile_ca : RayCluster → Act a (Unit {0})
  unfolding ca_secret_from
  reconcile_ca c =
      if is_mtls_enabled r.config
      then (do
        let name = ca_secret_name_from_cluster r.host c
        found ← call (get_secret c.namespace name) (a.get_secret c.namespace name)
        ca_secret_from c found)
      else pure tt

  unfoldable pub check_head_pod : RayCluster → Act a (Unit {0})
  check_head_pod c =
      if is_empty (head_pod c).image_pull_secrets
      then (do
        failed ← delete_head_pod_if_missing_image_pull_secrets a r.host c
        elim failed [ none ↦ pure tt | some e ↦ stop (requeue a e) ])
      else pure tt

  -- The objects of the OAuth proxy and the route to the Ray client.
  unfoldable pub reconcile_oauth : RayCluster → Act a (Unit {0})
  unfolding apply_object check_head_pod
  reconcile_oauth c = do
    apply_object (desired_cluster_route r.host c)
    apply_object (desired_oauth_secret r.host c r.cookie_salt)
    apply_object (desired_oauth_service r.host c)
    apply_object (desired_service_account r.host c)
    check_head_pod c
    apply_object (desired_oauth_cluster_role_binding r.host c)
    apply_object (desired_ray_client_route c)

  -- A host that cannot be made ends the reconciliation.
  unfoldable pub ingress_host : RayCluster → String → Act a String
  ingress_host c name = elim (get_ingress_host r.config c name) [
    | ok host ↦ pure host
    | err text ↦ stop (requeue a (message text))
  ]

  -- The two ingresses.
  unfoldable pub reconcile_ingresses : RayCluster → Act a (Unit {0})
  unfolding apply_object ingress_host
  reconcile_ingresses c = do
    dashboard_host ← ingress_host c (dashboard_name_from_cluster c)
    apply_object (desired_cluster_ingress c dashboard_host)
    client_host ← ingress_host c (ray_client_name_from_cluster c)
    apply_object (desired_ray_client_ingress c client_host)

  -- The third phase: the ways into the cluster.
  unfoldable pub reconcile_access : RayCluster → Act a (Unit {0})
  unfolding reconcile_oauth reconcile_ingresses
  reconcile_access c =
      if not (is_ray_cluster_suspended c)
        && is_ray_dashboard_oauth_enabled r.config
        && r.is_openshift
      then reconcile_oauth c
      else if not (is_ray_cluster_suspended c)
          && not (is_ray_dashboard_oauth_enabled r.config)
          && not r.is_openshift
      then reconcile_ingresses c
      else pure tt

  -- `getKubeRayOperatorNamespace`
  unfoldable pub get_kube_ray_operator_namespace : Act a String
  unfolding or_requeue
  get_kube_ray_operator_namespace = do
    found ← call (list_pods "" kube_ray_selector) (a.list_pods "" kube_ray_selector)
    pods ← or_requeue a found
    pure (kube_ray_namespace pods)

  unfoldable pub applications_namespaces : Result a.Failure String → Act a (List String)
  applications_namespaces (ok namespace) = pure (namespace ∷ [])
  applications_namespaces (err e) =
      if a.is_not_found e
      then pure (odh_namespace ∷ rhds_apps_namespace ∷ [])
      else stop (record { requeue_after = 0; error = some (api e) })

  unfoldable pub namespaces_with : String → Act a (List String)
  unfolding applications_namespaces
  namespaces_with namespace =
      if r.is_openshift
      then (do
        found ←
            call (get_dsci default_dsci_namespace)
              (a.get_dsci_applications_namespace default_dsci_namespace)
        applications_namespaces found)
      else pure (namespace ∷ [])

  -- The namespaces from which the KubeRay operator may come.
  unfoldable pub kube_ray_namespaces : Act a (List String)
  unfolding get_kube_ray_operator_namespace namespaces_with
  kube_ray_namespaces = do namespace ← get_kube_ray_operator_namespace; namespaces_with namespace

  -- The last phase: the network policies. A failure to apply one is logged and dropped.
  unfoldable pub reconcile_policies : RayCluster → Act a (Unit {0})
  unfolding try_apply kube_ray_namespaces
  reconcile_policies c = do
    namespaces ← kube_ray_namespaces
    head_policy ← run (desired_head_network_policy r.host c r.config namespaces)
    try_apply head_policy
    try_apply (desired_workers_network_policy r.host c)
    stop finished

  -- What follows the finalizer.
  unfoldable pub reconcile_objects : RayCluster → Act a (Unit {0})
  unfolding reconcile_ca reconcile_access reconcile_policies
  reconcile_objects c = do reconcile_ca c; reconcile_access c; reconcile_policies c

  -- What `Reconcile` does with a cluster that it got.
  unfoldable pub reconcile_cluster : RayCluster → Act a (Unit {0})
  unfolding reconcile_finalizer reconcile_objects
  reconcile_cluster c = do c' ← reconcile_finalizer c; reconcile_objects c'

  unfoldable pub got : Result a.Failure RayCluster → Act a (Unit {0})
  unfolding reconcile_cluster
  got (ok c) = reconcile_cluster c
  got (err e) =
      stop (record { requeue_after = 0; error = if a.is_not_found e then none else some (api e) })

  -- `Reconcile`
  unfoldable pub reconcile : String → String → Act a (Unit {0})
  unfolding got
  reconcile namespace name = do
    found ← call (get_ray_cluster namespace name) (a.get_ray_cluster namespace name)
    got found
