-- ===== src/Kube/Apply.antt =====
-- Apply configurations of client-go and of OpenShift's client, with the fields that the operator
-- sets.
use codeflare_operator.Base.{ℕ, String, Bool, Option, List}
use codeflare_operator.Base.StringMap.{StringMap}

pub record OwnerReference : Type 0 where
  pub api_version : String
  pub kind : String
  pub name : String
  pub uid : String
  pub controller : Bool

-- Name, namespace, labels, annotations and owners of an object to apply.
pub record ObjectMeta : Type 0 where
  pub name : String
  pub namespace : String
  pub labels : StringMap
  pub annotations : StringMap
  pub owner_references : List OwnerReference

-- `intstr.IntOrString`
pub data IntOrString : Type 0 where
  int : ℕ → IntOrString
  str : String → IntOrString

pub record RouteSpec : Type 0 where
  pub to_kind : String
  pub to_name : String
  pub to_weight : Option ℕ
  pub target_port : IntOrString
  pub insecure_edge_termination_policy : Option String
  pub termination : String

pub record ServicePort : Type 0 where
  pub name : String
  pub port : ℕ
  pub target_port : IntOrString
  pub protocol : String

pub record Subject : Type 0 where
  pub kind : String
  pub name : String
  pub namespace : String

pub record RoleRef : Type 0 where
  pub api_group : String
  pub kind : String
  pub name : String

-- An ingress backend's port, by number or by name.
pub record IngressSpec : Type 0 where
  pub ingress_class_name : Option String
  pub host : String
  pub path : String
  pub path_type : String
  pub service_name : String
  pub service_port : IntOrString

-- A requirement `key In values`.
pub record LabelSelectorRequirement : Type 0 where
  pub key : String
  pub values : List String

pub record LabelSelector : Type 0 where
  pub match_labels : StringMap
  pub match_expressions : List LabelSelectorRequirement

pub record NetworkPolicyPort : Type 0 where
  pub protocol : String
  pub port : IntOrString

pub record NetworkPolicyPeer : Type 0 where
  pub pod_selector : Option LabelSelector
  pub namespace_selector : Option LabelSelector

-- No peer admits every source, and no port every port.
pub record NetworkPolicyIngressRule : Type 0 where
  pub sources : List NetworkPolicyPeer
  pub ports : List NetworkPolicyPort

pub record NetworkPolicySpec : Type 0 where
  pub pod_selector : LabelSelector
  pub ingress : List NetworkPolicyIngressRule

-- An object that is applied. Secrets carry bytes under `data_of` and text under `string_data`.
pub data Object : Type 0 where
  route : ObjectMeta → RouteSpec → Object
  secret : ObjectMeta → (bytes : List (String × List ℕ)) → (string_data : StringMap) → Object
  service : ObjectMeta → List ServicePort → (selector : StringMap) → Object
  service_account : ObjectMeta → Object
  cluster_role_binding : ObjectMeta → List Subject → RoleRef → Object
  ingress : ObjectMeta → IngressSpec → Object
  network_policy : ObjectMeta → NetworkPolicySpec → Object

abbrev pub object_meta : Object → ObjectMeta
object_meta (route m _) = m
object_meta (secret m _ _) = m
object_meta (service m _ _) = m
object_meta (service_account m) = m
object_meta (cluster_role_binding m _ _) = m
object_meta (ingress m _) = m
object_meta (network_policy m _) = m
