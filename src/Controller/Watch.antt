-- ===== src/Controller/Watch.antt =====
-- The watch of ClusterRoleBindings in `SetupWithManager` (pkg/controllers/raycluster_controller.go):
-- which cluster is reconciled when a binding changes.
use codeflare_operator.Base.{◌≡◌, refl, String, none, some, List, [], ◌∷◌}
use codeflare_operator.Base.StringMap.{StringMap, lookup}
use codeflare_operator.Host.{Host}
use codeflare_operator.Kube.{RayCluster, object_meta}
use codeflare_operator.Controller.Desired.{
  ray_cluster_name_label, cluster_namespace_label, desired_oauth_cluster_role_binding,
}

-- `reconcile.Request`
pub record Request : Type 0 where
  pub name : String
  pub namespace : String

-- The function given to `EnqueueRequestsFromMapFunc`, on the labels of the binding.
unfoldable pub requests_of : StringMap → List Request
requests_of labels = elim (lookup ray_cluster_name_label labels) [
  | none ↦ []
  | some name ↦ elim (lookup cluster_namespace_label labels) [
    | none ↦ []
    | some namespace ↦ record { name = name; namespace = namespace } ∷ []
  ]
]

-- A change of the ClusterRoleBinding that the reconciler applies for a cluster leads back to that
-- cluster, and to no other.
pub requests_of-desired :
    (h : Host) (c : RayCluster)
    → requests_of (object_meta (desired_oauth_cluster_role_binding h c)).labels
      ≡ record { name = c.name; namespace = c.namespace } ∷ []
unfolding requests_of desired_oauth_cluster_role_binding lookup
requests_of-desired h c = refl
