-- ===== src/Controller/Unconfigured.antt =====
-- `Reconcile` without a configuration (pkg/controllers/raycluster_controller.go).
use codeflare_operator.Base.{◌≡◌, refl, ap, String, none}
use codeflare_operator.Base.Run.{Run, returns, panics}
use codeflare_operator.Kube.{RayCluster}
use codeflare_operator.Controller.Api.{Api, Result, ok, err, api}
use codeflare_operator.Controller.Effect.{M, ◌>>=◌, run}
use codeflare_operator.Controller.Effect.Raises.{
  ended_well, Raises, Raises-pure, Raises-stop, Raises-if, Raises-bind, raises_rules,
}
use codeflare_operator.Controller.Policies.{desired_head_network_policy}
use codeflare_operator.Controller.Reconcile.{
  Reconciler, requeue, or_requeue, get_kube_ray_operator_namespace, applications_namespaces,
  namespaces_with, kube_ray_namespaces, reconcile_policies,
}

module _ (a : Api) (r : Reconciler) where
  pub Raises-or_requeue : {A : Type 0} (x : Result a.Failure A) → Raises (or_requeue a x)
  unfolding or_requeue
  Raises-or_requeue (ok x) = Raises-pure x
  Raises-or_requeue (err e) = Raises-stop (requeue a (api e)) (api e) refl

  Raises-applications_namespaces :
      (x : Result a.Failure String) → Raises (applications_namespaces a r x)
  unfolding applications_namespaces
  Raises-applications_namespaces (ok namespace) = Raises-pure _
  Raises-applications_namespaces (err e) =
      Raises-if (a.is_not_found e) _ _ (Raises-pure _) (Raises-stop _ (api e) refl)

  Raises-namespaces_with : (namespace : String) → Raises (namespaces_with a r namespace)
  unfolding namespaces_with
  Raises-namespaces_with namespace = search (raises_rules, Raises-applications_namespaces)

  pub Raises-kube_ray_namespaces : Raises (kube_ray_namespaces a r)
  unfolding kube_ray_namespaces get_kube_ray_operator_namespace
  Raises-kube_ray_namespaces =
      search (raises_rules, Raises-or_requeue, Raises-namespaces_with) depth 8

  -- A run that panics ends the reconciliation.
  Raises-bind_panics :
      {A B : Type 0} (x : Run A) (f : A → M a.Failure a.State B) → x ≡ panics → Raises (run x >>= f)
  unfolding run ◌>>=◌ ended_well
  Raises-bind_panics (returns y) f e = cc
  Raises-bind_panics panics f e = record { at = λ w. refl }

  -- Without a configuration, from no world does the phase of the network policies end without an
  -- error.
  pub reconcile_policies-Raises :
      (c : RayCluster) → r.config ≡ none → Raises (reconcile_policies a r c)
  unfolding reconcile_policies desired_head_network_policy
  reconcile_policies-Raises c nil = Raises-bind _ _ Raises-kube_ray_namespaces (λ namespaces.
      Raises-bind_panics _ _ (ap (λ o. desired_head_network_policy r.host c o namespaces) nil))
