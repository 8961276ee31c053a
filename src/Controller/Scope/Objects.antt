-- ===== src/Controller/Scope/Objects.antt =====
-- Making a certificate calls no server, and each desired object may be applied under its conditions
-- (pkg/controllers/raycluster_controller.go and pkg/controllers/support.go).
use codeflare_operator.Base.{true, ℕ, ◌≡◌, refl, String, List, inl, inr, ◌⊎◌}
use codeflare_operator.Kube.{RayCluster, Object}
use codeflare_operator.Controller.Api.{Api, Result, Template, ok, err, api}
use codeflare_operator.Controller.Effect.{Call}
use codeflare_operator.Controller.Effect.Only.{Only, Only-pure, Only-stop, only_rules}
use codeflare_operator.Controller.Certificate.{sign_with, generate_ca_certificate}
use codeflare_operator.Controller.Desired.{
  desired_ca_secret, desired_cluster_route, desired_oauth_secret, desired_oauth_service,
  desired_service_account, desired_oauth_cluster_role_binding, desired_ray_client_route,
  desired_cluster_ingress, desired_ray_client_ingress,
}
use codeflare_operator.Controller.Reconcile.{
  Reconciler, requeue, or_requeue, try_apply, apply_object, is_mtls_enabled,
}
use codeflare_operator.Controller.Scope.{
  IsOwned, IsOwned-of_meta, HasOauth, HasIngresses, Granted, Scoped,
}

module _ {P : Call → Type 0} (a : Api) where
  -- Actions that make no call, or only a call that the predicate allows.
  pub Only-or_requeue : {A : Type 0} (x : Result a.Failure A) → Only P (or_requeue a x)
  unfolding or_requeue
  Only-or_requeue (ok x) = Only-pure x
  Only-or_requeue (err e) = Only-stop (requeue a (api e))

  pub Only-sign_with :
      (t : Template a.Time) (key : Result a.Failure a.PrivateKey) → Only P (sign_with a t key)
  unfolding sign_with
  Only-sign_with t (err e) = Only-pure (err e)
  Only-sign_with t (ok key) = search only_rules

  pub Only-generate_ca_certificate : Only P (generate_ca_certificate a)
  unfolding generate_ca_certificate
  Only-generate_ca_certificate = search (only_rules, Only-sign_with) depth 8

module _ (a : Api) (r : Reconciler) (c : RayCluster) where
  pub Only-apply_object :
      (o : Object)
      → (IsOwned c o ⊎ (o ≡ desired_oauth_cluster_role_binding r.host c))
      → Granted r c o
      → Only (Scoped a r c) (apply_object a r o)
  unfolding apply_object try_apply
  Only-apply_object o k granted = search (only_rules, Only-or_requeue a)

  pub Only-ca_secret :
      is_mtls_enabled r.config ≡ true
      → (key cert : List ℕ)
      → Only (Scoped a r c) (apply_object a r (desired_ca_secret r.host c key cert))
  unfolding desired_ca_secret
  Only-ca_secret on key cert =
      Only-apply_object _ (inl (IsOwned-of_meta _ _ _ refl)) (inl (on, (key, cert, refl)))

  pub Only-cluster_route :
      HasOauth r c → Only (Scoped a r c) (apply_object a r (desired_cluster_route r.host c))
  unfolding desired_cluster_route
  Only-cluster_route on = Only-apply_object _ (inl (IsOwned-of_meta _ _ _ refl)) on

  pub Only-oauth_secret :
      HasOauth r c
      → Only (Scoped a r c) (apply_object a r (desired_oauth_secret r.host c r.cookie_salt))
  unfolding desired_oauth_secret
  Only-oauth_secret on = Only-apply_object _ (inl (IsOwned-of_meta _ _ _ refl)) (inr (on, refl))

  pub Only-oauth_service :
      HasOauth r c → Only (Scoped a r c) (apply_object a r (desired_oauth_service r.host c))
  unfolding desired_oauth_service
  Only-oauth_service on = Only-apply_object _ (inl (IsOwned-of_meta _ _ _ refl)) on

  pub Only-service_account :
      HasOauth r c → Only (Scoped a r c) (apply_object a r (desired_service_account r.host c))
  unfolding desired_service_account
  Only-service_account on = Only-apply_object _ (inl (IsOwned-of_meta _ _ _ refl)) on

  pub Only-ray_client_route :
      HasOauth r c → Only (Scoped a r c) (apply_object a r (desired_ray_client_route c))
  unfolding desired_ray_client_route
  Only-ray_client_route on = Only-apply_object _ (inl (IsOwned-of_meta _ _ _ refl)) on

  pub Only-cluster_ingress :
      (host : String)
      → HasIngresses r c
      → Only (Scoped a r c) (apply_object a r (desired_cluster_ingress c host))
  unfolding desired_cluster_ingress
  Only-cluster_ingress host on = Only-apply_object _ (inl (IsOwned-of_meta _ _ _ refl)) on

  pub Only-ray_client_ingress :
      (host : String)
      → HasIngresses r c
      → Only (Scoped a r c) (apply_object a r (desired_ray_client_ingress c host))
  unfolding desired_ray_client_ingress
  Only-ray_client_ingress host on = Only-apply_object _ (inl (IsOwned-of_meta _ _ _ refl)) on

  pub Only-cluster_role_binding :
      HasOauth r c
      → Only (Scoped a r c) (apply_object a r (desired_oauth_cluster_role_binding r.host c))
  unfolding desired_oauth_cluster_role_binding
  Only-cluster_role_binding on = Only-apply_object _ (inr refl) on
