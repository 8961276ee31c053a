-- ===== src/Kube/Core.antt =====
-- The part of k8s.io/api/core/v1 that the operator reads or writes. A record has the fields that
-- the operator names; `others` stands for the remaining fields, which it neither reads nor sets: a
-- literal of the source leaves them at their zero value, `[]`.
use codeflare_operator.Base.{ℕ, String, Bool, Option, List}
use codeflare_operator.Base.StringMap.{StringMap}

pub record ContainerPort : Type 0 where
  pub container_port : ℕ
  pub name : String
  pub others : StringMap

pub record SecretKeySelector : Type 0 where
  pub name : String
  pub key : String
  pub others : StringMap

pub record ObjectFieldSelector : Type 0 where
  pub field_path : String
  pub others : StringMap

pub record EnvVarSource : Type 0 where
  pub field_ref : Option ObjectFieldSelector
  pub secret_key_ref : Option SecretKeySelector
  pub others : StringMap

pub record EnvVar : Type 0 where
  pub name : String
  pub value : String
  pub value_from : Option EnvVarSource

pub record VolumeMount : Type 0 where
  pub name : String
  pub mount_path : String
  pub read_only : Bool
  pub others : StringMap

pub record Container : Type 0 where
  pub name : String
  pub image : String
  pub command : List String
  pub args : List String
  pub ports : List ContainerPort
  pub env : List EnvVar
  pub volume_mounts : List VolumeMount
  pub others : StringMap

pub record SecretVolumeSource : Type 0 where
  pub secret_name : String
  pub others : StringMap

pub record EmptyDirVolumeSource : Type 0 where
  pub others : StringMap

pub record Volume : Type 0 where
  pub name : String
  pub secret : Option SecretVolumeSource
  pub empty_dir : Option EmptyDirVolumeSource
  pub others : StringMap

pub record PodSpec : Type 0 where
  pub containers : List Container
  pub init_containers : List Container
  pub volumes : List Volume
  pub service_account_name : String
  pub image_pull_secrets : List String  -- LocalObjectReference, by its name
  pub others : StringMap

-- What a pod list or a service account shows to the operator.
pub record Pod : Type 0 where
  pub name : String
  pub namespace : String
  pub spec : PodSpec

pub record ServiceAccount : Type 0 where
  pub name : String
  pub namespace : String
  pub image_pull_secrets : List String
