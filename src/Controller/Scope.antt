-- ===== src/Controller/Scope.antt =====
-- Which calls the phases after the finalizer make (pkg/controllers/raycluster_controller.go): what
-- they read and apply belongs to the cluster.
pub mod Objects
pub mod Access
pub mod Phases
use codeflare_operator.Base.{
  ℕ, ◌≡◌, refl, ap, Bool, true, false, not, ◌&&◌, String, ◌<>◌, List, [], ◌∷◌, Option, none, some,
  arith, inl, inr, ◌⊎◌,
}
use codeflare_operator.Base.Lists.{is_empty}
use mathlib.Core.Path.{subst}
use mathlib.Core.List.{Memᴰ}
use codeflare_operator.Base.Run.{returns, pointee, returns-injective, >>=-eq-returns}
use codeflare_operator.Base.StringMap.{StringMap, lookup}
use codeflare_operator.Kube.{
  route, secret, service, service_account, cluster_role_binding, ingress, network_policy,
  RayCluster, Object, ObjectMeta, Pod, ServiceAccount, object_meta, head_pod,
}
use codeflare_operator.Naming.{
  controller_name, ca_secret_name_from_cluster, oauth_service_account_name_from_cluster,
}
use codeflare_operator.Controller.Api.{
  Api, Error, Result, SecretData, Template, ok, err, api, message, wrapped,
}
use codeflare_operator.Controller.Effect.{
  Call, pure, stop, get_ray_cluster, update_ray_cluster, delete_cluster_role_binding, get_secret,
  apply, get_service_account, list_pods, delete_pod, get_dsci,
}
use codeflare_operator.Controller.Effect.Only.{
  Only, Only-pure, Only-stop, Only-if, Only-bind, Only-call, Only-bind_run, only_rules,
}
use codeflare_operator.Controller.Certificate.{sign_with, generate_ca_certificate}
use codeflare_operator.Controller.Desired.{
  owned_meta, ray_cluster_name_label, owner_ref_for_ray_cluster, desired_ca_secret,
  desired_cluster_route, desired_oauth_secret, desired_oauth_service, desired_service_account,
  desired_oauth_cluster_role_binding, desired_ray_client_route, desired_cluster_ingress,
  desired_ray_client_ingress,
}
use codeflare_operator.Controller.Policies.{
  desired_head_network_policy, desired_workers_network_policy,
}
use codeflare_operator.Controller.Secrets.{
  get_head_pod, delete_missing, head_pod_of, delete_head_pod_if_missing_image_pull_secrets,
}
use codeflare_operator.Controller.Reconcile.{
  Reconciler, requeue, or_requeue, try_apply, apply_object, ca_secret_from, reconcile_ca,
  check_head_pod, reconcile_oauth, ingress_host, reconcile_ingresses, reconcile_access,
  get_ingress_host, get_kube_ray_operator_namespace, applications_namespaces, namespaces_with,
  is_ray_cluster_suspended, is_ray_dashboard_oauth_enabled, kube_ray_namespaces, reconcile_policies,
  reconcile_objects, is_mtls_enabled, kube_ray_selector, default_dsci_namespace,
}

-- The object lies in the cluster's namespace, has its label, and is owned by it alone.
pub record IsOwned (c : RayCluster) (o : Object) : Type 0 where
  pub namespace_eq : (object_meta o).namespace ≡ c.namespace
  pub label_found : lookup ray_cluster_name_label (object_meta o).labels ≡ some c.name
  pub owners_eq : (object_meta o).owner_references ≡ owner_ref_for_ray_cluster c ∷ []

-- With OAuth on OpenShift, or without it elsewhere, and in both cases not suspended.
abbrev pub HasOauth : Reconciler → RayCluster → Type 0
HasOauth r c =
    (is_ray_cluster_suspended c ≡ false)
    × (is_ray_dashboard_oauth_enabled r.config ≡ true)
    × (r.is_openshift ≡ true)

abbrev pub HasIngresses : Reconciler → RayCluster → Type 0
HasIngresses r c =
    (is_ray_cluster_suspended c ≡ false)
    × (is_ray_dashboard_oauth_enabled r.config ≡ false)
    × (r.is_openshift ≡ false)

-- When an object may be applied, by its kind.
abbrev pub Granted : Reconciler → RayCluster → Object → Type 0
Granted r c (route meta spec) = HasOauth r c
Granted r c (secret meta bytes string_data) =
    ((is_mtls_enabled r.config ≡ true)
      × ((key : List ℕ) × (cert : List ℕ) × (secret meta bytes string_data
            ≡ desired_ca_secret r.host c key cert)))
    ⊎ (HasOauth r c × (secret meta bytes string_data ≡ desired_oauth_secret r.host c r.cookie_salt))
Granted r c (service meta ports selector) = HasOauth r c
Granted r c (service_account meta) = HasOauth r c
Granted r c (cluster_role_binding meta subjects role_ref) = HasOauth r c
Granted r c (ingress meta spec) = HasIngresses r c
Granted r c (network_policy meta spec) = Unit

-- The text by which the head pod of the cluster is looked up.
abbrev pub head_pod_selector : RayCluster → String
head_pod_selector c = "ray.io/node-type=head,ray.io/cluster=" <> c.name

-- The server has listed the pod as a head pod of the cluster, in the cluster's namespace.
abbrev pub IsListed : Api → RayCluster → Pod → Type 0
IsListed a c pod =
    (s : a.State) × (pods : List Pod) × ((a.list_pods c.namespace (head_pod_selector c) s).0
      ≡ ok pods)
    × Memᴰ pod pods

-- The calls that concern the cluster. A pod is deleted only with OAuth on OpenShift, if the head
-- group names no image pull secret, and if the server has listed it as the cluster's head pod. The
-- cluster itself is not written.
abbrev pub Scoped : Api → Reconciler → RayCluster → Call → Type 0
Scoped a r c (get_ray_cluster namespace name) = ⊥
Scoped a r c (update_ray_cluster d) = ⊥
Scoped a r c (delete_cluster_role_binding name policy) = ⊥
Scoped a r c (get_secret namespace name) =
    (is_mtls_enabled r.config ≡ true)
    × (namespace ≡ c.namespace)
    × (name ≡ ca_secret_name_from_cluster r.host c)
Scoped a r c (apply field_manager force o) =
    (field_manager ≡ controller_name)
    × (force ≡ true)
    × (IsOwned c o ⊎ (o ≡ desired_oauth_cluster_role_binding r.host c))
    × Granted r c o
Scoped a r c (get_service_account namespace name) =
    HasOauth r c
    × (namespace ≡ c.namespace)
    × (name ≡ oauth_service_account_name_from_cluster r.host c)
Scoped a r c (list_pods namespace selector) =
    (HasOauth r c × (namespace ≡ c.namespace) × (selector ≡ head_pod_selector c))
    ⊎ ((namespace ≡ "") × (selector ≡ kube_ray_selector))
Scoped a r c (delete_pod namespace name) =
    HasOauth r c
    × (is_empty (head_pod c).image_pull_secrets ≡ true)
    × ((pod : Pod) × IsListed a c pod × (namespace ≡ pod.namespace) × (name ≡ pod.name))
Scoped a r c (get_dsci name) = (r.is_openshift ≡ true) × (name ≡ default_dsci_namespace)

pub IsOwned-of_meta :
    {c : RayCluster} (o : Object) (name : String) (annotations : StringMap)
    → object_meta o ≡ owned_meta c name annotations
    → IsOwned c o
unfolding lookup
IsOwned-of_meta o name annotations e = record {
  namespace_eq = ap (λ (m : ObjectMeta). m.namespace) e;
  label_found = ap (λ (m : ObjectMeta). lookup ray_cluster_name_label m.labels) e;
  owners_eq = ap (λ (m : ObjectMeta). m.owner_references) e;
}
