-- ===== src/Controller/Scope/Access.antt =====
-- The calls of the CA secret, the head pod, the OAuth objects and the ingresses
-- (pkg/controllers/raycluster_controller.go).
use codeflare_operator.Base.{
  ◌≡◌, refl, ap, inl, Bool, true, false, not, ◌&&◌, String, Option, none, some, List, [], ◌∷◌,
  arith,
}
use mathlib.Core.List.{Memᴰ}
use codeflare_operator.Base.Lists.{is_empty}
use codeflare_operator.Kube.{RayCluster, Pod, ServiceAccount, head_pod}
use codeflare_operator.Controller.Api.{
  Api, Error, Result, SecretData, ok, err, api, message, wrapped,
}
use codeflare_operator.Controller.Effect.{World, ◌>>=◌, pure, stop, call}
use codeflare_operator.Controller.Effect.Only.{
  Only, Only-pure, Only-stop, Only-if, Only-bind, Only-call, Only-bind_from, Given, only_rules,
}
use codeflare_operator.Controller.Secrets.{
  first_pod, missing_secrets, get_head_pod, delete_missing, head_pod_of,
  delete_head_pod_if_missing_image_pull_secrets,
}
use codeflare_operator.Controller.Reconcile.{
  Reconciler, requeue, ca_secret_from, reconcile_ca, check_head_pod, reconcile_oauth, ingress_host,
  reconcile_ingresses, reconcile_access, get_ingress_host, is_ray_cluster_suspended,
  is_ray_dashboard_oauth_enabled, is_mtls_enabled,
}
use codeflare_operator.Controller.Scope.{
  HasOauth, HasIngresses, Scoped, IsListed, head_pod_selector,
}
use codeflare_operator.Controller.Scope.Objects.{
  Only-or_requeue, Only-generate_ca_certificate, Only-ca_secret, Only-cluster_route,
  Only-oauth_secret, Only-oauth_service, Only-service_account, Only-ray_client_route,
  Only-cluster_ingress, Only-ray_client_ingress, Only-cluster_role_binding,
}

all_true : (s o p : Bool) → (not s && o && p) ≡ true → (s ≡ false) × (o ≡ true) × (p ≡ true)
all_true s o p e = ground arith

all_false :
    (s o p : Bool) → (not s && not o && not p) ≡ true → (s ≡ false) × (o ≡ false) × (p ≡ false)
all_false s o p e = ground arith

module _ (a : Api) (r : Reconciler) (c : RayCluster) where
  pub Only-ca_secret_from :
      is_mtls_enabled r.config ≡ true
      → (x : Result a.Failure SecretData) → Only (Scoped a r c) (ca_secret_from a r c x)
  unfolding ca_secret_from
  Only-ca_secret_from on (ok d) = (Only-ca_secret a r c) on _ _
  Only-ca_secret_from on (err e) =
      search (only_rules, Only-generate_ca_certificate a, Only-or_requeue a, (Only-ca_secret a r c))

  pub Only-reconcile_ca : Only (Scoped a r c) (reconcile_ca a r c)
  unfolding reconcile_ca
  Only-reconcile_ca =
      Only-if (is_mtls_enabled r.config) _ _
        (λ on. Only-bind _ _ (Only-call _ _ (on, refl, refl)) (Only-ca_secret_from on))
        (λ _. Only-pure tt)

  module _ (on : HasOauth r c) (unset : is_empty (head_pod c).image_pull_secrets ≡ true) where
    Only-delete_missing :
        (account : ServiceAccount) (pod : Option Pod)
        → ((p : Pod) → pod ≡ some p → IsListed a c p)
        → Only (Scoped a r c) (delete_missing a account pod)
    unfolding delete_missing
    Only-delete_missing account none listed = Only-pure none
    Only-delete_missing account (some pod) listed =
        Only-if (is_empty (missing_secrets account pod)) _ _ (λ _. Only-pure _)
          (λ _.
            Only-bind _ _ (Only-call _ _ (on, unset, (pod, listed pod refl, refl, refl)))
              (λ _. Only-pure _))

    -- The head pod that was found is one that the server has listed.
    abbrev HeadListed : Result a.Failure (Option Pod) → Type 0
    HeadListed x = (pod : Pod) → x ≡ ok (some pod) → IsListed a c pod

    listed_in :
        (x : Result a.Failure (List Pod)) (pod : Pod)
        → elim x [ ok pods ↦ ok (first_pod pods) | err e ↦ err e ] ≡ ok (some pod)
        → (pods : List Pod) × (x ≡ ok pods) × Memᴰ pod pods
    unfolding first_pod
    listed_in (ok []) pod e = cc
    listed_in (ok (p ∷ pods)) pod e = (p ∷ pods, refl, Memᴰ.head cc)
    listed_in (err f) pod e = cc

    get_head_pod-HeadListed : (w : World a.State) → Given HeadListed (get_head_pod a c w).0
    unfolding get_head_pod ◌>>=◌ call pure
    get_head_pod-HeadListed w pod e =
        let (pods, answered, there) =
          listed_in (a.list_pods c.namespace (head_pod_selector c) w.server).0 pod e in
        (w.server, pods, answered, there)

    Only-with_pod :
        (account : ServiceAccount) (x : Result a.Failure (Option Pod))
        → HeadListed x
        → Only {F = a.Failure} {S = a.State} (Scoped a r c) (elim x [
          | err e ↦ pure (some (wrapped "failed to get head pod" (api e)))
          | ok pod ↦ delete_missing a account pod
        ])
    Only-with_pod account (err e) listed = Only-pure _
    Only-with_pod account (ok pod) listed =
        Only-delete_missing account pod (λ p e. listed p (ap ok e))

    Only-get_head_pod : Only (Scoped a r c) (get_head_pod a c)
    unfolding get_head_pod
    Only-get_head_pod = Only-bind _ _ (Only-call _ _ (inl (on, refl, refl))) (λ _. Only-pure _)

    Only-head_pod_of :
        (x : Result a.Failure ServiceAccount) → Only (Scoped a r c) (head_pod_of a c x)
    unfolding head_pod_of
    Only-head_pod_of (err e) = Only-pure _
    Only-head_pod_of (ok account) =
        Only-bind_from (get_head_pod a c) _ Only-get_head_pod get_head_pod-HeadListed
          (Only-with_pod account)

    Only-delete_head_pod :
        Only (Scoped a r c) (delete_head_pod_if_missing_image_pull_secrets a r.host c)
    unfolding delete_head_pod_if_missing_image_pull_secrets
    Only-delete_head_pod = Only-bind _ _ (Only-call _ _ (on, refl, refl)) Only-head_pod_of

  pub Only-with_failure :
      (failed : Option (Error a.Failure))
      → Only {F = a.Failure} {S = a.State} {A = Unit {0}}
          (Scoped a r c)
          (elim failed [ none ↦ pure tt | some e ↦ stop (requeue a e) ])
  Only-with_failure none = Only-pure tt
  Only-with_failure (some e) = Only-stop (requeue a e)

  pub Only-check_head_pod : HasOauth r c → Only (Scoped a r c) (check_head_pod a r c)
  unfolding check_head_pod
  Only-check_head_pod on =
      Only-if (is_empty (head_pod c).image_pull_secrets) _ _
        (λ unset. Only-bind _ _ (Only-delete_head_pod on unset) Only-with_failure)
        (λ _. Only-pure tt)

  pub Only-reconcile_oauth : HasOauth r c → Only (Scoped a r c) (reconcile_oauth a r c)
  unfolding reconcile_oauth
  Only-reconcile_oauth on =
      search
        (
          only_rules,
          (Only-cluster_route a r c),
          (Only-oauth_secret a r c),
          (Only-oauth_service a r c),
          (Only-service_account a r c),
          Only-check_head_pod,
          (Only-cluster_role_binding a r c),
          (Only-ray_client_route a r c),
        )
        depth 12

  pub Only-with_host :
      (x : Result String String)
      → Only {F = a.Failure} {S = a.State}
          (Scoped a r c)
          (elim x [ ok host ↦ pure host | err text ↦ stop (requeue a (message text)) ])
  Only-with_host (ok host) = Only-pure host
  Only-with_host (err text) = Only-stop _

  pub Only-ingress_host : (name : String) → Only (Scoped a r c) (ingress_host a r c name)
  unfolding ingress_host
  Only-ingress_host name = Only-with_host (get_ingress_host r.config c name)

  pub Only-reconcile_ingresses : HasIngresses r c → Only (Scoped a r c) (reconcile_ingresses a r c)
  unfolding reconcile_ingresses
  Only-reconcile_ingresses on =
      search
        (
          only_rules,
          Only-ingress_host,
          (Only-cluster_ingress a r c),
          (Only-ray_client_ingress a r c),
        )
        depth 12

  pub Only-reconcile_access : Only (Scoped a r c) (reconcile_access a r c)
  unfolding reconcile_access
  Only-reconcile_access =
      Only-if _ _ _
        (λ e. Only-reconcile_oauth (
          all_true (is_ray_cluster_suspended c) (is_ray_dashboard_oauth_enabled r.config)
            r.is_openshift e))
        (λ _.
          Only-if _ _ _
            (λ e. Only-reconcile_ingresses (
              all_false (is_ray_cluster_suspended c) (is_ray_dashboard_oauth_enabled r.config)
                r.is_openshift e))
            (λ _. Only-pure tt))
