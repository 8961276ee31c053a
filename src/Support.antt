-- ===== src/Support.antt =====
-- The generic list helpers of pkg/controllers/support.go: `upsert`, `contains` and the predicates
-- that compare two items by name.
pub mod Fields
pub mod Upsert
pub mod UpsertAll
pub mod Contains
use codeflare_operator.Base.{
  ℕ, String, Bool, true, false, Option, none, some, List, [], ◌∷◌, ◌==◌, if◌then◌else◌,
}
use codeflare_operator.Kube.{Container, Volume, VolumeMount, EnvVar}
use Fields.{Value, FieldError, invalid, required}

-- `compare[T]`
abbrev pub Compare {ℓ} : Type ℓ → Type ℓ
Compare T = T → T → Bool

module _ {ℓ} {T : Type ℓ} where
  -- `upsert`: the first match is replaced, else the item is appended.
  unfoldable pub upsert : List T → T → Compare T → List T
  upsert [] item predicate = item ∷ []
  upsert (t ∷ items) item predicate =
      if predicate t item then item ∷ items else t ∷ upsert items item predicate

  -- `contains`: nil, or the error of the first match that differs or of a missing item.
  -- `derivative` is `equality.Semantic.DeepDerivative`, and `value` makes the reported value.
  unfoldable pub contains :
      (derivative : T → T → Bool) (value : T → Value)
      → List T
      → T
      → Compare T
      → List String
      → String
      → Option FieldError
  contains derivative value [] item predicate path msg = some (required path msg)
  contains derivative value (t ∷ items) item predicate path msg =
      let rest = contains derivative value items item predicate path msg in
      if predicate t item
      then (if derivative item t then none else some (invalid path (value t) msg))
      else rest

-- `byContainerName`, `byVolumeName`, `byVolumeMountName`, `byEnvVarName`
abbrev pub by_container_name : Compare Container
by_container_name c1 c2 = c1.name == c2.name

abbrev pub by_volume_name : Compare Volume
by_volume_name v1 v2 = v1.name == v2.name

abbrev pub by_volume_mount_name : Compare VolumeMount
by_volume_mount_name v1 v2 = v1.name == v2.name

abbrev pub by_env_var_name : Compare EnvVar
by_env_var_name e1 e2 = e1.name == e2.name

-- `withContainerName`, `withVolumeName`, `withEnvVarName`
abbrev pub with_container_name : String → Compare Container
with_container_name name c1 c2 = c1.name == name

abbrev pub with_volume_name : String → Compare Volume
with_volume_name name v1 v2 = v1.name == name

abbrev pub with_env_var_name : String → Compare EnvVar
with_env_var_name name e1 e2 = e1.name == name
