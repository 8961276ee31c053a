-- ===== src/Tests/Connections.antt =====
-- The network policies of a cluster, and a pod of another namespace.
use codeflare_operator.Base.{◌≡◌, refl, true, false, ◌&&◌, ◌||◌, String, List, [], ◌∷◌, some}
use codeflare_operator.Base.Run.{returns}
use codeflare_operator.Base.StringMap.{StringMap, lookup}
use codeflare_operator.Config.{mtls_on}
use codeflare_operator.Kube.{Object, int}
use codeflare_operator.Controller.Policies.{
  desired_head_network_policy, desired_workers_network_policy,
}
use codeflare_operator.Controller.Policies.Reach.{Source, has_label, is_port, reaches}
use codeflare_operator.Controller.Policies.Strangers.{
  namespace_label, is_kube_ray, is_monitoring, reaches-head, reaches-worker, reaches-other,
}
use codeflare_operator.Tests.Data.{host, configuration, cluster, value_or}

abbrev stranger : Source
stranger = record {
  is_local = false;
  labels = ("app", "intruder") ∷ [];
  namespace_labels = (namespace_label, "elsewhere") ∷ [];
}

abbrev operators : List String
operators = "opendatahub" ∷ []

head_policy : Object
unfolding desired_head_network_policy
head_policy =
    value_or (desired_head_network_policy host cluster (some configuration) operators)
      (desired_workers_network_policy host cluster)

head_policy_run :
    desired_head_network_policy host cluster (some configuration) operators ≡ returns head_policy
unfolding desired_head_network_policy head_policy
head_policy_run = refl

-- A pod of the cluster.
abbrev node : String → StringMap
node kind = ("app", "ray") ∷ ("ray.io/cluster", cluster.name) ∷ ("ray.io/node-type", kind) ∷ []

abbrev both : List Object
both = head_policy ∷ desired_workers_network_policy host cluster ∷ []

reaches-head_example : reaches both (node "head") stranger 8265 ≡ (
    (stranger.is_local && has_label stranger.labels "ray.io/cluster" (cluster.name ∷ []))
    || ((stranger.is_local || is_kube_ray host cluster stranger operators)
        && (is_port 8265 (int 10001) || is_port 8265 (int 8265)))
    || (is_monitoring host cluster stranger && is_port 8265 (int 8080))
    || is_port 8265 (int 8443)
    || (mtls_on configuration && is_port 8265 (int 10001)))
unfolding lookup
reaches-head_example =
    reaches-head host cluster stranger configuration operators head_policy head_policy_run
      (node "head") 8265 refl refl

reaches-worker_example :
    reaches both (node "worker") stranger 6379
    ≡ (stranger.is_local && has_label stranger.labels "ray.io/cluster" (cluster.name ∷ []))
unfolding lookup
reaches-worker_example =
    reaches-worker host cluster stranger configuration operators head_policy head_policy_run
      (node "worker") 6379 refl refl

reaches-other_example : reaches both (("app", "web") ∷ []) stranger 80 ≡ true
unfolding lookup
reaches-other_example =
    reaches-other host cluster stranger configuration operators head_policy head_policy_run
      (("app", "web") ∷ []) 80 refl

-- The stranger reaches the OAuth proxy of the head pod and not its dashboard.
reaches_test :
    (reaches both (node "head") stranger 8443 ≡ true)
    × (reaches both (node "head") stranger 8265 ≡ false)
unfolding lookup head_policy desired_head_network_policy desired_workers_network_policy
reaches_test = (refl, refl)
