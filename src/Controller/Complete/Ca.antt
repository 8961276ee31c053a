-- ===== src/Controller/Complete/Ca.antt =====
-- The CA secret is applied whenever the phase goes on.
use codeflare_operator.Base.{◌≡◌, refl, true}
use codeflare_operator.Kube.{RayCluster}
use codeflare_operator.Controller.Api.{Api, Result, SecretData, ok, err, api, Template}
use codeflare_operator.Controller.Effect.Raises.{
  Raises, Raises-pure, Raises-stop, Raises-call, Raises-if, raises_rules,
}
use codeflare_operator.Controller.Effect.Sends.{
  answered, Sends, Sends-stop, Sends-if, Sends-if_true, Sends-later,
}
use codeflare_operator.Controller.Unconfigured.{Raises-or_requeue}
use codeflare_operator.Controller.Certificate.{sign_with, generate_ca_certificate}
use codeflare_operator.Controller.Reconcile.{
  Reconciler, ca_secret_from, reconcile_ca, is_mtls_enabled,
}
use codeflare_operator.Controller.Complete.{Meets, ca, Raises-apply_object, Sends-apply_object}

module _ (a : Api) (r : Reconciler) (c : RayCluster) where
  Raises-sign_with :
      (t : Template a.Time) (key : Result a.Failure a.PrivateKey) → Raises (sign_with a t key)
  unfolding sign_with
  Raises-sign_with t (err e) = Raises-pure (err e)
  Raises-sign_with t (ok key) = search raises_rules

  Raises-generate_ca_certificate : Raises (generate_ca_certificate a)
  unfolding generate_ca_certificate
  Raises-generate_ca_certificate = search (raises_rules, Raises-sign_with) depth 8

  pub Raises-ca_secret_from : (x : Result a.Failure SecretData) → Raises (ca_secret_from a r c x)
  unfolding ca_secret_from
  Raises-ca_secret_from (ok d) = Raises-apply_object a r _
  Raises-ca_secret_from (err e) =
      Raises-if (a.is_not_found e) _ _
        (search (
          raises_rules,
          Raises-generate_ca_certificate,
          Raises-or_requeue a,
          Raises-apply_object a r,
        ))
        (Raises-stop _ (api e) refl)

  pub Raises-reconcile_ca : Raises (reconcile_ca a r c)
  unfolding reconcile_ca
  Raises-reconcile_ca = search (raises_rules, Raises-ca_secret_from)

  Sends-ca_secret_from :
      (on : is_mtls_enabled r.config ≡ true) (x : Result a.Failure SecretData)
      → Sends answered (Meets r c (ca on)) (ca_secret_from a r c x)
  unfolding ca_secret_from
  Sends-ca_secret_from on (ok d) = Sends-apply_object a r _ (_, _, refl)
  Sends-ca_secret_from on (err e) =
      Sends-if (a.is_not_found e) _ _
        (Sends-later _ _ Raises-generate_ca_certificate (λ generated.
          Sends-later _ _ (Raises-or_requeue a r _)
            (λ pair. Sends-apply_object a r _ (pair.0, pair.1, refl))))
        (Sends-stop _ (api e) refl)

  pub Sends-reconcile_ca :
      (on : is_mtls_enabled r.config ≡ true)
      → Sends answered (Meets r c (ca on)) (reconcile_ca a r c)
  unfolding reconcile_ca
  Sends-reconcile_ca on =
      Sends-if_true _ _ _ on (Sends-later _ _ (Raises-call _ _) (Sends-ca_secret_from on))
