-- ===== src/Controller/Policies.antt =====
-- The two network policies: `desiredWorkersNetworkPolicy` and `desiredHeadNetworkPolicy` of
-- pkg/controllers/raycluster_controller.go.
pub mod Reach
pub mod Strangers
use codeflare_operator.Base.{ℕ, String, Option, none, some, List, [], ◌∷◌, if◌then◌else◌}
use codeflare_operator.Base.StringMap.{StringMap}
use codeflare_operator.Base.Run.{Run, returns, ◌>>=◌, pointee}
use codeflare_operator.Host.{Host}
use codeflare_operator.Config.{KubeRayConfiguration, mtls_on}
use codeflare_operator.Kube.{
  RayCluster, Object, LabelSelector, NetworkPolicyPort, NetworkPolicyPeer, NetworkPolicyIngressRule,
  int, network_policy,
}
use codeflare_operator.Naming.{head_nwp_name_from_cluster, worker_nwp_name_from_cluster}
use codeflare_operator.Controller.Desired.{owned_meta}

abbrev pub kube_ray_operator_namespace : String
kube_ray_operator_namespace = "kuberay-operator"

abbrev matching : StringMap → LabelSelector
matching labels = record { match_labels = labels; match_expressions = [] }

abbrev name_in : List String → LabelSelector
name_in values = record {
  match_labels = [];
  match_expressions = record { key = "kubernetes.io/metadata.name"; values = values } ∷ [];
}

abbrev pods : StringMap → NetworkPolicyPeer
pods labels = record { pod_selector = some (matching labels); namespace_selector = none }

abbrev tcp : ℕ → NetworkPolicyPort
tcp port = record { protocol = "TCP"; port = int port }

-- The ports that every source may use.
abbrev pub all_secured_ports : KubeRayConfiguration → List NetworkPolicyPort
all_secured_ports cfg = tcp 8443 ∷ (if mtls_on cfg then tcp 10001 ∷ [] else [])

module _ (h : Host) where
  -- `desiredWorkersNetworkPolicy`
  unfoldable pub desired_workers_network_policy : RayCluster → Object
  desired_workers_network_policy c =
      network_policy (owned_meta c (worker_nwp_name_from_cluster h c) []) (record {
        pod_selector = matching (("ray.io/cluster", c.name) ∷ ("ray.io/node-type", "worker") ∷ []);
        ingress = record { sources = pods (("ray.io/cluster", c.name) ∷ []) ∷ []; ports = [] } ∷ [];
      })

  -- The five ingress rules of the head pod.
  unfoldable pub head_rules :
      RayCluster → KubeRayConfiguration → List String → List NetworkPolicyIngressRule
  head_rules c cfg kube_ray_namespaces =
      record { sources = pods (("ray.io/cluster", c.name) ∷ []) ∷ []; ports = [] }
      ∷ record { sources = pods [] ∷ []; ports = tcp 10001 ∷ tcp 8265 ∷ [] }
      ∷ record {
        sources =
            record {
              pod_selector =
                  some
                    (matching (("app.kubernetes.io/component", kube_ray_operator_namespace) ∷ []));
              namespace_selector = some (name_in kube_ray_namespaces);
            }
            ∷ [];
        ports = tcp 8265 ∷ tcp 10001 ∷ [];
      }
      ∷ record {
        sources =
            record {
              pod_selector = none;
              namespace_selector = some (name_in ("openshift-monitoring" ∷ []));
            }
            ∷ [];
        ports = tcp 8080 ∷ [];
      }
      ∷ record { sources = []; ports = all_secured_ports cfg }
      ∷ []

  -- `desiredHeadNetworkPolicy`, which reads a flag of its configuration: a nil pointer panics.
  unfoldable pub desired_head_network_policy :
      RayCluster → Option KubeRayConfiguration → List String → Run Object
  unfolding head_rules
  desired_head_network_policy c config kube_ray_namespaces = do
    cfg ← pointee config
    returns (
        network_policy (owned_meta c (head_nwp_name_from_cluster h c) []) (record {
          pod_selector = matching (("ray.io/cluster", c.name) ∷ ("ray.io/node-type", "head") ∷ []);
          ingress = head_rules c cfg kube_ray_namespaces;
        }))
