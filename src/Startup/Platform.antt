-- ===== src/Startup/Platform.antt =====
-- What main.go calls: the API server, the file system, the yaml library, controller-runtime's
-- manager, the certificate rotator and the AppWrapper controller. Every call may fail.
use codeflare_operator.Base.{String, Bool, Option, List}
use codeflare_operator.Base.StringMap.{StringMap}
use codeflare_operator.Config.Manager.{Foreign, CodeFlareOperatorConfiguration}
use codeflare_operator.Controller.Api.{Result}

-- `rest.Config`, with the fields that main.go sets.
pub record KubeConfig (f : Foreign) : Type 0 where
  pub user_agent : String
  pub burst : f.Int32
  pub qps : f.Float32

pub record ConfigMap : Type 0 where
  pub namespace : String
  pub name : String
  pub content : StringMap

-- The kinds of objects whose cache main.go restricts.
pub data Kind : Type 0 where
  secrets : Kind
  services : Kind
  service_accounts : Kind
  ingresses : Kind
  network_policies : Kind
  cluster_role_bindings : Kind
  routes : Kind

-- `cache.Options`: the selector of each restricted kind; any other kind is cached whole.
abbrev pub CacheOptions : Type 0 → Type 0
CacheOptions Selector = List (Kind × Selector)

-- `ctrl.Options`
pub record ManagerOptions (f : Foreign) (Selector : Type 0) : Type 0 where
  pub metrics_bind_address : String
  pub health_probe_bind_address : String
  pub leader_election : Bool
  pub leader_election_id : String
  pub leader_election_namespace : String
  pub leader_election_resource_lock : String
  pub lease_duration : f.Duration
  pub retry_period : f.Duration
  pub renew_deadline : f.Duration
  pub cache : CacheOptions Selector

pub data WebhookType : Type 0 where
  validating : WebhookType
  mutating : WebhookType

-- `cert.CertRotator`, whose `IsReady` channel is closed once the certificates are there.
pub record CertRotator : Type 0 where
  pub secret_namespace : String
  pub secret_name : String
  pub cert_dir : String
  pub ca_name : String
  pub ca_organization : String
  pub dns_name : String
  pub webhooks : List (WebhookType × String)
  pub require_leader_election : Bool

pub record Platform : Type 1 where
  pub foreign : Foreign
  pub State : Type 0
  pub Failure : Type 0
  pub Manager : Type 0
  pub Selector : Type 0
  pub is_not_found : Failure → Bool
  pub get_kube_config : State → Result Failure (KubeConfig foreign) × State
  pub new_client : KubeConfig foreign → Result Failure (Unit {0})
  pub read_file : String → State → Result Failure String × State
  pub get_config_map : (namespace name : String) → State → Result Failure ConfigMap × State
  pub create_config_map : ConfigMap → State → Result Failure (Unit {0}) × State
  pub marshal : CodeFlareOperatorConfiguration foreign → Result Failure String
  pub unmarshal :
      String
      → CodeFlareOperatorConfiguration foreign
      → Result Failure (CodeFlareOperatorConfiguration foreign)
  pub server_groups : State → Result Failure (List String) × State
  pub parse_selector : String → Result Failure Selector
  pub new_manager :
      KubeConfig foreign → ManagerOptions foreign Selector → State → Result Failure Manager × State
  pub add_rotator : Manager → CertRotator → State → Result Failure (Unit {0}) × State
  pub new_config_client : KubeConfig foreign → Result Failure (Unit {0})
  pub get_ingress_domain : (name : String) → State → Result Failure String × State
  pub add_healthz_check : Manager → (name : String) → State → Result Failure (Unit {0}) × State
  pub add_readyz_check : Manager → (name : String) → State → Result Failure (Unit {0}) × State
  pub setup_indexers :
      Manager → Option foreign.AppWrapperConfig → State → Result Failure (Unit {0}) × State
  pub start : Manager → State → Result Failure (Unit {0}) × State
