-- ===== src/Controller/Scope/Phases.antt =====
-- The calls of the network policies and of all phases after the finalizer
-- (pkg/controllers/raycluster_controller.go).
use codeflare_operator.Base.{inr, ◌≡◌, refl, String, List, inl}
use mathlib.Core.Path.{subst}
use codeflare_operator.Base.Run.{returns, pointee, returns-injective, >>=-eq-returns}
use codeflare_operator.Kube.{RayCluster, Object}
use codeflare_operator.Controller.Api.{Api, Result, ok, err}
use codeflare_operator.Controller.Effect.Only.{
  Only, Only-if, Only-pure, Only-stop, Only-bind, Only-call, Only-bind_run, only_rules,
}
use codeflare_operator.Controller.Policies.{
  desired_head_network_policy, desired_workers_network_policy,
}
use codeflare_operator.Controller.Reconcile.{
  Reconciler, try_apply, get_kube_ray_operator_namespace, applications_namespaces, namespaces_with,
  kube_ray_namespaces, reconcile_policies, reconcile_objects,
}
use codeflare_operator.Controller.Scope.{IsOwned, IsOwned-of_meta, Granted, Scoped}
use codeflare_operator.Controller.Scope.Objects.{Only-or_requeue}
use codeflare_operator.Controller.Scope.Access.{Only-reconcile_ca, Only-reconcile_access}

module _ (a : Api) (r : Reconciler) (c : RayCluster) where
  pub Only-applications_namespaces :
      (x : Result a.Failure String) → Only (Scoped a r c) (applications_namespaces a r x)
  unfolding applications_namespaces
  Only-applications_namespaces (ok namespace) = Only-pure _
  Only-applications_namespaces (err e) = search only_rules

  pub Only-namespaces_with :
      (namespace : String) → Only (Scoped a r c) (namespaces_with a r namespace)
  unfolding namespaces_with
  Only-namespaces_with namespace =
      Only-if r.is_openshift _ _
        (λ on. Only-bind _ _ (Only-call _ _ (on, refl)) Only-applications_namespaces)
        (λ _. Only-pure _)

  pub Only-kube_ray_namespaces : Only (Scoped a r c) (kube_ray_namespaces a r)
  unfolding kube_ray_namespaces get_kube_ray_operator_namespace
  Only-kube_ray_namespaces =
      Only-bind _ _
        (Only-bind _ _ (Only-call _ _ (inr (refl, refl)))
          (λ found. Only-bind _ _ (Only-or_requeue a found) (λ pods. Only-pure _)))
        Only-namespaces_with

  pub Only-try_apply :
      (o : Object) → IsOwned c o → Granted r c o → Only (Scoped a r c) (try_apply a r o)
  unfolding try_apply
  Only-try_apply o k granted = Only-call _ _ (refl, refl, inl k, granted)

  head_policy-IsOwned :
      (namespaces : List String) (o : Object)
      → desired_head_network_policy r.host c r.config namespaces ≡ returns o
      → IsOwned c o × Granted r c o
  unfolding desired_head_network_policy
  head_policy-IsOwned namespaces o e =
      let (cfg, conf, same) = >>=-eq-returns (pointee r.config) _ e in
      subst (λ p. IsOwned c p × Granted r c p) (returns-injective same)
        (IsOwned-of_meta _ _ _ refl, tt)

  pub Only-workers_policy :
      Only (Scoped a r c) (try_apply a r (desired_workers_network_policy r.host c))
  unfolding desired_workers_network_policy
  Only-workers_policy = Only-try_apply _ (IsOwned-of_meta _ _ _ refl) tt

  pub Only-reconcile_policies : Only (Scoped a r c) (reconcile_policies a r c)
  unfolding reconcile_policies
  Only-reconcile_policies = Only-bind _ _ Only-kube_ray_namespaces (λ namespaces.
      Only-bind_run _ _ (λ o e.
        let (is_owned, granted) = head_policy-IsOwned namespaces o e in
        Only-bind _ _ (Only-try_apply o is_owned granted)
          (λ _. Only-bind _ _ Only-workers_policy (λ _. Only-stop _))))

  -- What follows the finalizer writes no RayCluster and deletes no ClusterRoleBinding. It applies, by
  -- force and as the operator's field manager, only objects that lie in the cluster's namespace, have
  -- its label and are owned by it alone, or its ClusterRoleBinding: a route, a service, a service
  -- account, a ClusterRoleBinding and the OAuth secret only with OAuth on OpenShift for a cluster that
  -- is not suspended, an ingress only without OAuth and not on OpenShift for such a cluster, a network
  -- policy always, and no other secret but, with mTLS on, the CA secret. It deletes no pod but one that
  -- the server answers as a head pod of the cluster in its namespace, with OAuth as above, and if the
  -- head group names no image pull secret. It reads the cluster's CA secret only with mTLS on, its
  -- OAuth service account and its head pods only with OAuth as above, the DSCInitialization by its
  -- default name only on OpenShift, and the KubeRay operator's pods.
  pub reconcile_objects-Scoped : Only (Scoped a r c) (reconcile_objects a r c)
  unfolding reconcile_objects
  reconcile_objects-Scoped = search (
    only_rules,
    (Only-reconcile_ca a r c),
    (Only-reconcile_access a r c),
    Only-reconcile_policies,
  )
