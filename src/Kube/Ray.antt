-- ===== src/Kube/Ray.antt =====
-- The part of KubeRay's rayv1.RayCluster that the operator reads or writes.
use codeflare_operator.Base.{ℕ, String, Bool, true, false, Option, none, some, List, zero, suc}
use codeflare_operator.Base.StringMap.{StringMap}
use codeflare_operator.Kube.Core.{PodSpec}

pub record PodTemplateSpec : Type 0 where
  pub spec : PodSpec
  pub others : StringMap

pub record HeadGroupSpec : Type 0 where
  pub template : PodTemplateSpec
  pub enable_ingress : Option Bool
  pub others : StringMap

pub record WorkerGroupSpec : Type 0 where
  pub template : PodTemplateSpec
  pub others : StringMap

pub record RayClusterSpec : Type 0 where
  pub head_group_spec : HeadGroupSpec
  pub worker_group_specs : List WorkerGroupSpec
  pub suspend : Option Bool
  pub others : StringMap

-- `annotations` is a map that may be nil; `deletion_timestamp` a pointer to seconds.
pub record RayCluster : Type 0 where
  pub api_version : String
  pub kind : String
  pub name : String
  pub namespace : String
  pub uid : String
  pub annotations : Option StringMap
  pub finalizers : List String
  pub deletion_timestamp : Option ℕ
  pub spec : RayClusterSpec
  pub others : StringMap

-- `DeletionTimestamp.IsZero()`, of a nil pointer or of the zero time.
abbrev pub is_zero : Option ℕ → Bool
is_zero none = true
is_zero (some zero) = true
is_zero (some (suc t)) = false

-- `Spec.HeadGroupSpec.Template.Spec`, read and assigned.
abbrev pub head_pod : RayCluster → PodSpec
head_pod c = c.spec.head_group_spec.template.spec

abbrev pub with_head_pod : RayCluster → PodSpec → RayCluster
with_head_pod c p =
    let template = record c.spec.head_group_spec.template { spec = p } in
    let head = record c.spec.head_group_spec { template = template } in
    record c { spec = record c.spec { head_group_spec = head } }

-- `WorkerGroupSpecs[i].Template.Spec`, read and assigned.
abbrev pub worker_pod : WorkerGroupSpec → PodSpec
worker_pod w = w.template.spec

abbrev pub with_worker_pod : WorkerGroupSpec → PodSpec → WorkerGroupSpec
with_worker_pod w p = record w { template = record w.template { spec = p } }

abbrev pub with_workers : RayCluster → List WorkerGroupSpec → RayCluster
with_workers c ws = record c { spec = record c.spec { worker_group_specs = ws } }
