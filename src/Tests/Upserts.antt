-- ===== src/Tests/Upserts.antt =====
-- The list helpers, on variables of a container.
use codeflare_operator.Base.{◌≡◌, ◌↔◌, refl, Bool, none, some, String, List, [], ◌∷◌, ◌==◌, map}
use codeflare_operator.Kube.{EnvVar}
use codeflare_operator.Support.{upsert, contains, with_env_var_name, by_env_var_name}
use codeflare_operator.Support.Fields.{Value}
use codeflare_operator.Support.Upsert.{find_first, find_first-upsert, upsert-eq_self, map-upsert}
use codeflare_operator.Support.Contains.{Holds, contains-eq-none_iff}

abbrev env_key : EnvVar → String
env_key e = e.name

abbrev tls : String → EnvVar
tls value = record { name = "RAY_USE_TLS"; value = value; value_from = none }

abbrev vars : List EnvVar
vars = record { name = "A"; value = "1"; value_from = none } ∷ tls "0" ∷ tls "2" ∷ []

upsert_test :
    upsert vars (tls "1") (with_env_var_name "RAY_USE_TLS")
    ≡ record { name = "A"; value = "1"; value_from = none } ∷ tls "1" ∷ tls "2" ∷ []
unfolding upsert
upsert_test = refl

find_first-upsert_example :
    find_first env_key "RAY_USE_TLS" (upsert vars (tls "1") (with_env_var_name "RAY_USE_TLS"))
    ≡ some (tls "1")
find_first-upsert_example =
    find_first-upsert env_key (with_env_var_name "RAY_USE_TLS") (tls "1") (λ t. refl) "RAY_USE_TLS"
      vars

upsert-eq_self_example : upsert vars (tls "0") (with_env_var_name "RAY_USE_TLS") ≡ vars
unfolding find_first
upsert-eq_self_example =
    upsert-eq_self env_key (with_env_var_name "RAY_USE_TLS") (tls "0") (λ t. refl) vars refl

map-upsert_example :
    map env_key (upsert vars (tls "1") (with_env_var_name "RAY_USE_TLS"))
    ≡ "A" ∷ "RAY_USE_TLS" ∷ "RAY_USE_TLS" ∷ []
unfolding find_first
map-upsert_example = map-upsert env_key (with_env_var_name "RAY_USE_TLS") (tls "1") (λ t. refl) vars

abbrev same_value : EnvVar → EnvVar → Bool
same_value a b = a.value == b.value

contains-eq-none_iff_example :
    (contains same_value Value.env_var vars (tls "1") by_env_var_name [] "immutable" ≡ none)
    ↔ Holds env_key same_value vars (tls "1")
contains-eq-none_iff_example =
    contains-eq-none_iff env_key same_value Value.env_var (tls "1") by_env_var_name [] "immutable"
      (λ t. refl) vars
