-- ===== src/Support/Fields.antt =====
-- Errors about a field, as k8s.io/apimachinery/pkg/util/validation/field makes them: a path, the
-- value found there and a message.
use codeflare_operator.Base.{String, Bool, Option, List}
use codeflare_operator.Kube.{Container, Volume, EnvVar}

pub data Value : Type 0 where
  container : Container → Value
  volume : Volume → Value
  env_var : EnvVar → Value
  flag : Option Bool → Value
  text : String → Value

pub data FieldError : Type 0 where
  invalid : List String → Value → String → FieldError
  required : List String → String → FieldError
