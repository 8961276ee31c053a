-- ===== src/Controller/Policies/Strangers.antt =====
-- Who may connect to the pods of a cluster under its two network policies
-- (pkg/controllers/raycluster_controller.go).
use codeflare_operator.Base.{
  ℕ, String, ◌≡◌, refl, ap, sym, ◌∙◌, Bool, true, false, ◌&&◌, ◌||◌, some, List, [], ◌∷◌, arith,
  Bool-cases, inl, inr,
}
use codeflare_operator.Base.Lists.{member}
use codeflare_operator.Base.StringMap.{StringMap, lookup}
use codeflare_operator.Base.Run.{returns, returns-injective}
use codeflare_operator.Host.{Host}
use codeflare_operator.Config.{KubeRayConfiguration, mtls_on}
use codeflare_operator.Kube.{RayCluster, Object, int}
use codeflare_operator.Controller.Policies.{
  kube_ray_operator_namespace, head_rules, desired_head_network_policy,
  desired_workers_network_policy,
}
use codeflare_operator.Controller.Policies.Reach.{
  Source, has_label, is_port, admits, isolates, reaches,
}

abbrev pub namespace_label : String
namespace_label = "kubernetes.io/metadata.name"

has_label-lookup :
    (labels : StringMap) (key value : String) (values : List String)
    → lookup key labels ≡ some value
    → has_label labels key values ≡ member value values
has_label-lookup labels key value values found = rw (has_label, found) refl

module _ (h : Host) (c : RayCluster) (s : Source) where
  admits-workers :
      (port : ℕ)
      → admits (desired_workers_network_policy h c) s port
        ≡ (s.is_local && has_label s.labels "ray.io/cluster" (c.name ∷ []))
  unfolding desired_workers_network_policy
  admits-workers port = ground arith

  -- The pods of the KubeRay operator, in one of its namespaces.
  abbrev pub is_kube_ray : List String → Bool
  is_kube_ray namespaces =
      has_label s.labels "app.kubernetes.io/component" (kube_ray_operator_namespace ∷ [])
      && has_label s.namespace_labels namespace_label namespaces

  abbrev pub is_monitoring : Bool
  is_monitoring = has_label s.namespace_labels namespace_label ("openshift-monitoring" ∷ [])

  module _ (cfg : KubeRayConfiguration) (namespaces : List String) (o : Object)
      (desired : desired_head_network_policy h c (some cfg) namespaces ≡ returns o) where
    admits-head :
        (port : ℕ)
        → admits o s port ≡ (
            (s.is_local && has_label s.labels "ray.io/cluster" (c.name ∷ []))
            || ((s.is_local || is_kube_ray namespaces)
                && (is_port port (int 10001) || is_port port (int 8265)))
            || (is_monitoring && is_port port (int 8080))
            || is_port port (int 8443)
            || (mtls_on cfg && is_port port (int 10001)))
    unfolding desired_head_network_policy head_rules
    admits-head port =
        ap (λ p. admits p s port) (sym (returns-injective desired))
        ∙ elim (Bool-cases (mtls_on cfg)) [
          | inl on ↦ rw on (ground arith)
          | inr off ↦ rw off (ground arith)
        ]

    isolates-head :
        (target : StringMap)
        → isolates o target ≡ (
            has_label target "ray.io/cluster" (c.name ∷ [])
            && has_label target "ray.io/node-type" ("head" ∷ []))
    unfolding desired_head_network_policy
    isolates-head target =
        ap (λ p. isolates p target) (sym (returns-injective desired)) ∙ ground arith

    isolates-workers :
        (target : StringMap)
        → isolates (desired_workers_network_policy h c) target ≡ (
            has_label target "ray.io/cluster" (c.name ∷ [])
            && has_label target "ray.io/node-type" ("worker" ∷ []))
    unfolding desired_workers_network_policy
    isolates-workers target = ground arith

    abbrev pub policies : List Object
    policies = o ∷ desired_workers_network_policy h c ∷ []

    -- Under the two policies of a cluster, who reaches which port of a pod of the cluster with the
    -- node type head, in the cluster's namespace: the pods of the same Ray cluster every port, those
    -- of the namespace and the KubeRay operator the client and the dashboard, the monitoring the
    -- metrics, and everyone the port of the OAuth proxy and, with mTLS on, the client.
    pub reaches-head :
        (target : StringMap) (port : ℕ)
        → has_label target "ray.io/cluster" (c.name ∷ []) ≡ true
        → lookup "ray.io/node-type" target ≡ some "head"
        → reaches policies target s port ≡ (
            (s.is_local && has_label s.labels "ray.io/cluster" (c.name ∷ []))
            || ((s.is_local || is_kube_ray namespaces)
                && (is_port port (int 10001) || is_port port (int 8265)))
            || (is_monitoring && is_port port (int 8080))
            || is_port port (int 8443)
            || (mtls_on cfg && is_port port (int 10001)))
    reaches-head target port mine node =
        rw
          (
            isolates-head target,
            isolates-workers target,
            mine,
            has_label-lookup target "ray.io/node-type" _ ("head" ∷ []) node,
            has_label-lookup target "ray.io/node-type" _ ("worker" ∷ []) node,
          )
          (ground arith ∙ admits-head port)

    -- Under the two policies of a cluster, a pod of the cluster with the node type worker, in the
    -- cluster's namespace, is reached, on every port, from the pods of the same Ray cluster in the
    -- same namespace, and from no other pod.
    pub reaches-worker :
        (target : StringMap) (port : ℕ)
        → has_label target "ray.io/cluster" (c.name ∷ []) ≡ true
        → lookup "ray.io/node-type" target ≡ some "worker"
        → reaches policies target s port
          ≡ (s.is_local && has_label s.labels "ray.io/cluster" (c.name ∷ []))
    reaches-worker target port mine node =
        rw
          (
            isolates-head target,
            isolates-workers target,
            mine,
            has_label-lookup target "ray.io/node-type" _ ("head" ∷ []) node,
            has_label-lookup target "ray.io/node-type" _ ("worker" ∷ []) node,
          )
          (ground arith ∙ admits-workers port)

    -- The two policies of a cluster leave every other pod of its namespace alone: a pod without the
    -- cluster's label, or with the label of another cluster, is reached from everywhere, on every
    -- port.
    pub reaches-other :
        (target : StringMap) (port : ℕ)
        → has_label target "ray.io/cluster" (c.name ∷ []) ≡ false
        → reaches policies target s port ≡ true
    reaches-other target port other =
        rw (isolates-head target, isolates-workers target, other) (ground arith)
