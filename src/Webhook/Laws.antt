-- ===== src/Webhook/Laws.antt =====
-- What is assumed of `equality.Semantic.DeepDerivative(a, b)`: it compares what `a` sets and
-- ignores what `a` leaves unset, and of a longer slice `b` what follows the items of `a`.
use codeflare_operator.Base.{String, ◌≡◌, ◌≢◌, true, List, ◌++◌}
use codeflare_operator.Base.Lists.{All}
use codeflare_operator.Kube.{Container, EnvVar, Volume}
use codeflare_operator.Webhook.Validate.{Semantic}

-- Every value derives from itself.
pub record IsReflexive (s : Semantic) : Type 0 where
  pub container_refl : (a : Container) → s.container a a ≡ true
  pub volume_refl : (a : Volume) → s.volume a a ≡ true
  pub env_var_refl : (a : EnvVar) → s.env_var a a ≡ true

-- A container that derives from another has its image, if that sets one, and begins with its
-- arguments, if those are all set.
pub record ComparesContainers (s : Semantic) : Type 0 where
  pub container_image :
      (a b : Container) → s.container a b ≡ true → a.image ≢ "" → b.image ≡ a.image
  pub container_args :
      (a b : Container)
      → s.container a b ≡ true
      → All (λ x. x ≢ "") a.args
      → (more : List String) × (b.args ≡ a.args ++ more)
