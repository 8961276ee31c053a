-- ===== src/Tests/Semantics.antt =====
-- A comparison with the laws of `equality.Semantic.DeepDerivative`: structural equality.
use codeflare_operator.Base.{
  ◌≡◌, refl, sym, ap, ◌∙◌, Bool, true, false, String, [], ◌==◌, eq_iff, arith, Bool-cases, inl, inr,
}
use native.Mathlib.Decide.{ℕ_discrete}
use mathlib.Core.List.{append-nil}
use codeflare_operator.Kube.{Container, EnvVar, Volume}
use codeflare_operator.Webhook.Validate.{Semantic}
use codeflare_operator.Webhook.Laws.{IsReflexive, ComparesContainers}

string-discrete : Discrete String
string-discrete a b = elim (Bool-cases (a == b)) [
  | inl same ↦ yes (ground (arith, eq_iff a b))
  | inr other ↦ no (λ e. ground (arith, eq_iff a b))
]

container-discrete : Discrete Container
container-discrete = hlevel (string-discrete, ℕ_discrete)

volume-discrete : Discrete Volume
volume-discrete = hlevel (string-discrete, ℕ_discrete)

env_var-discrete : Discrete EnvVar
env_var-discrete = hlevel (string-discrete, ℕ_discrete)

module _ {A : Type 0} where
  decided : {a b : A} → Dec (a ≡ b) → Bool
  decided (yes p) = true
  decided (no p) = false

  decided-eq : {a b : A} (d : Dec (a ≡ b)) → decided d ≡ true → a ≡ b
  unfolding decided
  decided-eq (yes p) e = p
  decided-eq (no p) e = cc

  decided_refl : (a : A) (d : Dec (a ≡ a)) → decided d ≡ true
  unfolding decided
  decided_refl a (yes p) = refl
  decided_refl a (no p) = absurd (p refl)

pub semantic : Semantic
semantic = record {
  container = λ a b. decided (container-discrete a b);
  volume = λ a b. decided (volume-discrete a b);
  env_var = λ a b. decided (env_var-discrete a b);
}

pub semantic-IsReflexive : IsReflexive semantic
unfolding semantic
semantic-IsReflexive = record {
  container_refl = λ a. decided_refl a (container-discrete a a);
  volume_refl = λ a. decided_refl a (volume-discrete a a);
  env_var_refl = λ a. decided_refl a (env_var-discrete a a);
}

pub semantic-ComparesContainers : ComparesContainers semantic
unfolding semantic
semantic-ComparesContainers = record {
  container_image =
      λ a b e _. sym (ap (λ (x : Container). x.image) (decided-eq (container-discrete a b) e));
  container_args = λ a b e _. (
    [],
    sym (ap (λ (x : Container). x.args) (decided-eq (container-discrete a b) e))
        ∙ sym (append-nil a.args),
  );
}
