-- ===== src/Controller/Policies/Reach.antt =====
-- What a NetworkPolicy admits, as the Kubernetes API describes it: a rule admits a connection if one
-- of its sources and one of its ports do, and the policy if one of its rules does. A pod that no
-- policy selects accepts every connection, and another one those that a policy that selects it admits.
use codeflare_operator.Base.{
  ℕ, String, Bool, true, false, not, ◌&&◌, ◌||◌, Option, none, some, List, [], ◌∷◌, ◌==◌, ltb,
}
use codeflare_operator.Base.Lists.{member}
use codeflare_operator.Base.StringMap.{StringMap, lookup}
use codeflare_operator.Kube.{
  Object, LabelSelector, LabelSelectorRequirement, NetworkPolicyPort, NetworkPolicyPeer,
  NetworkPolicyIngressRule, IntOrString, int, str, route, secret, service, service_account,
  cluster_role_binding, ingress, network_policy,
}

-- The pod that connects: whether it is in the policy's namespace, its labels, and the labels of its
-- namespace.
pub record Source : Type 0 where
  pub is_local : Bool
  pub labels : StringMap
  pub namespace_labels : StringMap

module _ {ℓ} {A : Type ℓ} where
  abbrev pub any : (A → Bool) → List A → Bool
  any f [] = false
  any f (x ∷ xs) = f x || any f xs

  -- No entry at all stands for every value.
  abbrev pub any_or_none : (A → Bool) → List A → Bool
  any_or_none f [] = true
  any_or_none f (x ∷ xs) = any f (x ∷ xs)

-- The label is there with one of the values.
abbrev pub has_label : StringMap → String → List String → Bool
has_label labels key values = elim (lookup key labels) [ none ↦ false | some v ↦ member v values ]

abbrev pub matches_labels : StringMap → StringMap → Bool
matches_labels [] labels = true
matches_labels ((key, value) ∷ required) labels =
    has_label labels key (value ∷ []) && matches_labels required labels

abbrev pub matches_expressions : List LabelSelectorRequirement → StringMap → Bool
matches_expressions [] labels = true
matches_expressions (r ∷ rs) labels =
    has_label labels r.key r.values && matches_expressions rs labels

abbrev pub matches : LabelSelector → StringMap → Bool
matches s labels =
    matches_labels s.match_labels labels && matches_expressions s.match_expressions labels

abbrev pub selects : (pods namespaces : Option LabelSelector) → Source → Bool
selects none none s = false
selects (some pods) none s = s.is_local && matches pods s.labels
selects none (some namespaces) s = matches namespaces s.namespace_labels
selects (some pods) (some namespaces) s =
    matches pods s.labels && matches namespaces s.namespace_labels

abbrev pub is_port : ℕ → IntOrString → Bool
is_port port (int p) = not (ltb p port || ltb port p)
is_port port (str name) = false

-- A TCP connection to a port by its number.
abbrev pub rule_admits : NetworkPolicyIngressRule → Source → ℕ → Bool
rule_admits r s port =
    any_or_none (λ (p : NetworkPolicyPeer). selects p.pod_selector p.namespace_selector s) r.sources
    && any_or_none (λ (p : NetworkPolicyPort). p.protocol == "TCP" && is_port port p.port) r.ports

abbrev pub admits : Object → Source → ℕ → Bool
admits (network_policy meta spec) s port =
    any (λ (r : NetworkPolicyIngressRule). rule_admits r s port) spec.ingress
admits (route meta spec) s port = false
admits (secret meta bytes string_data) s port = false
admits (service meta ports selector) s port = false
admits (service_account meta) s port = false
admits (cluster_role_binding meta subjects role_ref) s port = false
admits (ingress meta spec) s port = false

-- The policy selects the pods with these labels, in its namespace.
abbrev pub isolates : Object → StringMap → Bool
isolates (network_policy meta spec) target = matches spec.pod_selector target
isolates (route meta spec) target = false
isolates (secret meta bytes string_data) target = false
isolates (service meta ports selector) target = false
isolates (service_account meta) target = false
isolates (cluster_role_binding meta subjects role_ref) target = false
isolates (ingress meta spec) target = false

-- Whether a source reaches a port of a pod of the policies' namespace, by the labels of the pod.
abbrev pub reaches : List Object → StringMap → Source → ℕ → Bool
reaches policies target s port =
    not (any (λ (o : Object). isolates o target) policies)
    || any (λ (o : Object). isolates o target && admits o s port) policies
