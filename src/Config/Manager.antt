-- ===== src/Config/Manager.antt =====
-- pkg/config/config.go: the configuration of the operator. Numbers of type float32 and int32, durations and
-- the AppWrapper controller's own configuration are taken as they come.
use codeflare_operator.Base.{ℕ, String, Bool, Option}
use codeflare_operator.Config.{KubeRayConfiguration}

-- What the configuration takes from elsewhere: Go's float32 and int32 with their literals, client-go's defaults
-- and the configuration of the AppWrapper controller.
pub record Foreign : Type 1 where
  pub Float32 : Type 0
  pub float32 : ℕ → Float32
  pub default_qps : Float32
  pub Int32 : Type 0
  pub int32 : ℕ → Int32
  pub default_burst : Int32
  pub AppWrapperConfig : Type 0
  pub new_app_wrapper_config : AppWrapperConfig
  pub Duration : Type 0
  pub no_duration : Duration

-- `LeaderElectionConfiguration` of k8s.io/component-base/config/v1alpha1.
pub record LeaderElectionConfiguration (f : Foreign) : Type 0 where
  pub leader_elect : Option Bool
  pub lease_duration : f.Duration
  pub renew_deadline : f.Duration
  pub retry_period : f.Duration
  pub resource_lock : String
  pub resource_name : String
  pub resource_namespace : String

pub record ClientConnection (f : Foreign) : Type 0 where
  pub qps : Option f.Float32
  pub burst : Option f.Int32

pub record MetricsConfiguration : Type 0 where
  pub bind_address : String

pub record HealthConfiguration : Type 0 where
  pub bind_address : String
  pub readiness_endpoint_name : String
  pub liveness_endpoint_name : String

pub record ControllerManager (f : Foreign) : Type 0 where
  pub metrics : MetricsConfiguration
  pub health : HealthConfiguration
  pub leader_election : Option (LeaderElectionConfiguration f)

pub record AppWrapperConfiguration (f : Foreign) : Type 0 where
  pub enabled : Option Bool
  pub config : Option f.AppWrapperConfig

-- The fields of the embedded `ControllerManager` are read as fields of the whole.
pub record CodeFlareOperatorConfiguration (f : Foreign) : Type 0 where
  pub client_connection : Option (ClientConnection f)
  pub controller_manager : ControllerManager f
  pub kube_ray : Option KubeRayConfiguration
  pub app_wrapper : Option (AppWrapperConfiguration f)
