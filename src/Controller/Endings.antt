-- ===== src/Controller/Endings.antt =====
-- How a reconciliation ends (pkg/controllers/raycluster_controller.go): with an error that is tried
-- again, or finished.
use codeflare_operator.Base.{
  ◌≡◌, refl, ap, Bool, true, false, String, List, Option, none, some, if◌then◌else◌, inl, inr,
}
use codeflare_operator.Config.{KubeRayConfiguration}
use codeflare_operator.Base.Lists.{is_empty}
use codeflare_operator.Kube.{head_pod, RayCluster, Object, Pod, ServiceAccount}
use codeflare_operator.Controller.Api.{
  Api, Error, Result, SecretData, ok, err, api, message, wrapped, Template,
}
use codeflare_operator.Controller.Effect.{finished, pure, stop, run}
use codeflare_operator.Controller.Effect.Ends.{
  IsClean, StaysClean, StaysClean-pure, StaysClean-stop, StaysClean-if, StaysClean-bind,
  StaysClean-run, StaysClean-call, ends_rules, Concludes, Concludes-stop, Concludes-bind,
}
use codeflare_operator.Controller.Certificate.{sign_with, generate_ca_certificate}
use codeflare_operator.Controller.Policies.{desired_head_network_policy}
use codeflare_operator.Controller.Secrets.{
  get_head_pod, delete_missing, head_pod_of, delete_head_pod_if_missing_image_pull_secrets,
}
use codeflare_operator.Controller.Reconcile.{
  Reconciler, requeue, or_requeue, try_apply, apply_object, ignore_not_found, update, finalize,
  reconcile_finalizer, ca_secret_from, reconcile_ca, check_head_pod, reconcile_oauth, ingress_host,
  reconcile_ingresses, reconcile_access, get_ingress_host, reconcile_policies, reconcile_objects,
  reconcile_cluster, reconcile, got, applications_namespaces, namespaces_with,
  get_kube_ray_operator_namespace, kube_ray_namespaces,
}

module _ (a : Api) where
  StaysClean-or_requeue : {A : Type 0} (x : Result a.Failure A) → StaysClean (or_requeue a x)
  unfolding or_requeue
  StaysClean-or_requeue (ok x) = StaysClean-pure x
  StaysClean-or_requeue (err e) = StaysClean-stop (requeue a (api e)) (inr (api e, refl))

module _ (a : Api) (r : Reconciler) where
  StaysClean-try_apply : (o : Object) → StaysClean (try_apply a r o)
  unfolding try_apply
  StaysClean-try_apply o = search ends_rules

  StaysClean-apply_object : (o : Object) → StaysClean (apply_object a r o)
  unfolding apply_object
  StaysClean-apply_object o = search (ends_rules, StaysClean-or_requeue a)

  StaysClean-ignore_not_found :
      (x : Result a.Failure (Unit {0})) → StaysClean (ignore_not_found a r x)
  unfolding ignore_not_found
  StaysClean-ignore_not_found (ok _) = StaysClean-pure tt
  StaysClean-ignore_not_found (err e) =
      StaysClean-if (a.is_not_found e) _ _ (StaysClean-pure tt)
        (StaysClean-stop (requeue a (api e)) (inr (api e, refl)))

  StaysClean-update : (c : RayCluster) → StaysClean (update a r c)
  unfolding update
  StaysClean-update c = search (ends_rules, StaysClean-or_requeue a)

  StaysClean-finish :
      {A : Type 0} → StaysClean (stop {F = a.Failure} {S = a.State} {A = A} finished)
  StaysClean-finish = StaysClean-stop finished (inl (refl, refl))

  StaysClean-finalize : (c : RayCluster) → StaysClean (finalize a r c)
  unfolding finalize
  StaysClean-finalize c =
      search (ends_rules, StaysClean-ignore_not_found, StaysClean-update, StaysClean-finish)

  StaysClean-reconcile_finalizer : (c : RayCluster) → StaysClean (reconcile_finalizer a r c)
  unfolding reconcile_finalizer
  StaysClean-reconcile_finalizer c = search (ends_rules, StaysClean-update, StaysClean-finalize)

  StaysClean-sign_with :
      (t : Template a.Time) (key : Result a.Failure a.PrivateKey) → StaysClean (sign_with a t key)
  unfolding sign_with
  StaysClean-sign_with t (err e) = StaysClean-pure (err e)
  StaysClean-sign_with t (ok key) = search ends_rules

  StaysClean-generate_ca_certificate : StaysClean (generate_ca_certificate a)
  unfolding generate_ca_certificate
  StaysClean-generate_ca_certificate = search (ends_rules, StaysClean-sign_with) depth 8

  StaysClean-ca_secret_from :
      (c : RayCluster) (x : Result a.Failure SecretData) → StaysClean (ca_secret_from a r c x)
  unfolding ca_secret_from
  StaysClean-ca_secret_from c (ok d) = StaysClean-apply_object _
  StaysClean-ca_secret_from c (err e) =
      StaysClean-if (a.is_not_found e) _ _
        (search (
          ends_rules,
          StaysClean-generate_ca_certificate,
          StaysClean-or_requeue a,
          StaysClean-apply_object,
        ))
        (StaysClean-stop (requeue a (api e)) (inr (api e, refl)))

  StaysClean-reconcile_ca : (c : RayCluster) → StaysClean (reconcile_ca a r c)
  unfolding reconcile_ca
  StaysClean-reconcile_ca c = search (ends_rules, StaysClean-ca_secret_from)

  StaysClean-delete_missing :
      (account : ServiceAccount) (pod : Option Pod) → StaysClean (delete_missing a account pod)
  unfolding delete_missing
  StaysClean-delete_missing account none = StaysClean-pure none
  StaysClean-delete_missing account (some pod) = search ends_rules

  ends-with_pod :
      (account : ServiceAccount) (x : Result a.Failure (Option Pod))
      → StaysClean {F = a.Failure} {S = a.State} (elim x [
        | err e ↦ pure (some (wrapped "failed to get head pod" (api e)))
        | ok pod ↦ delete_missing a account pod
      ])
  ends-with_pod account (err e) = StaysClean-pure _
  ends-with_pod account (ok pod) = StaysClean-delete_missing account pod

  StaysClean-get_head_pod : (c : RayCluster) → StaysClean (get_head_pod a c)
  unfolding get_head_pod
  StaysClean-get_head_pod c = search ends_rules

  StaysClean-head_pod_of :
      (c : RayCluster) (x : Result a.Failure ServiceAccount) → StaysClean (head_pod_of a c x)
  unfolding head_pod_of
  StaysClean-head_pod_of c (err e) = StaysClean-pure _
  StaysClean-head_pod_of c (ok account) =
      StaysClean-bind (get_head_pod a c) _ (StaysClean-get_head_pod c) (ends-with_pod account)

  StaysClean-delete_head_pod :
      (c : RayCluster) → StaysClean (delete_head_pod_if_missing_image_pull_secrets a r.host c)
  unfolding delete_head_pod_if_missing_image_pull_secrets
  StaysClean-delete_head_pod c = search (ends_rules, StaysClean-head_pod_of)

  ends-with_failure :
      (failed : Option (Error a.Failure))
      → StaysClean {F = a.Failure} {S = a.State} {A = Unit {0}}
          (elim failed [ none ↦ pure tt | some e ↦ stop (requeue a e) ])
  ends-with_failure none = StaysClean-pure tt
  ends-with_failure (some e) = StaysClean-stop (requeue a e) (inr (e, refl))

  StaysClean-check_head_pod : (c : RayCluster) → StaysClean (check_head_pod a r c)
  unfolding check_head_pod
  StaysClean-check_head_pod c =
      StaysClean-if (is_empty (head_pod c).image_pull_secrets) _ _
        (StaysClean-bind _ _ (StaysClean-delete_head_pod c) ends-with_failure) (StaysClean-pure tt)

  StaysClean-reconcile_oauth : (c : RayCluster) → StaysClean (reconcile_oauth a r c)
  unfolding reconcile_oauth
  StaysClean-reconcile_oauth c =
      search (ends_rules, StaysClean-apply_object, StaysClean-check_head_pod) depth 12

  ends-with_host :
      (x : Result String String)
      → StaysClean {F = a.Failure} {S = a.State}
          (elim x [ ok host ↦ pure host | err text ↦ stop (requeue a (message text)) ])
  ends-with_host (ok host) = StaysClean-pure host
  ends-with_host (err text) = StaysClean-stop _ (inr (message text, refl))

  StaysClean-ingress_host : (c : RayCluster) (name : String) → StaysClean (ingress_host a r c name)
  unfolding ingress_host
  StaysClean-ingress_host c name = ends-with_host (get_ingress_host r.config c name)

  StaysClean-reconcile_ingresses : (c : RayCluster) → StaysClean (reconcile_ingresses a r c)
  unfolding reconcile_ingresses
  StaysClean-reconcile_ingresses c =
      search (ends_rules, StaysClean-apply_object, StaysClean-ingress_host) depth 12

  StaysClean-reconcile_access : (c : RayCluster) → StaysClean (reconcile_access a r c)
  unfolding reconcile_access
  StaysClean-reconcile_access c =
      search (ends_rules, StaysClean-reconcile_oauth, StaysClean-reconcile_ingresses)

  StaysClean-get_kube_ray_operator_namespace : StaysClean (get_kube_ray_operator_namespace a r)
  unfolding get_kube_ray_operator_namespace
  StaysClean-get_kube_ray_operator_namespace = search (ends_rules, StaysClean-or_requeue a)

  StaysClean-applications_namespaces :
      (x : Result a.Failure String) → StaysClean (applications_namespaces a r x)
  unfolding applications_namespaces
  StaysClean-applications_namespaces (ok namespace) = StaysClean-pure _
  StaysClean-applications_namespaces (err e) =
      StaysClean-if (a.is_not_found e) _ _ (StaysClean-pure _)
        (StaysClean-stop _ (inr (api e, refl)))

  StaysClean-namespaces_with : (namespace : String) → StaysClean (namespaces_with a r namespace)
  unfolding namespaces_with
  StaysClean-namespaces_with namespace = search (ends_rules, StaysClean-applications_namespaces)

  StaysClean-kube_ray_namespaces : StaysClean (kube_ray_namespaces a r)
  unfolding kube_ray_namespaces
  StaysClean-kube_ray_namespaces =
      search (ends_rules, StaysClean-get_kube_ray_operator_namespace, StaysClean-namespaces_with)

module _ (a : Api) (r : Reconciler) (cfg : KubeRayConfiguration) (conf : r.config ≡ some cfg) where
  StaysClean-run_policy :
      (c : RayCluster) (namespaces : List String)
      → StaysClean {F = a.Failure} {S = a.State}
          (run (desired_head_network_policy r.host c r.config namespaces))
  unfolding desired_head_network_policy
  StaysClean-run_policy c namespaces =
      StaysClean-run _ _ (ap (λ o. desired_head_network_policy r.host c o namespaces) conf)

  Concludes-finish : {A : Type 0} → Concludes (stop {F = a.Failure} {S = a.State} {A = A} finished)
  Concludes-finish = Concludes-stop finished (inl (refl, refl))

  Concludes-reconcile_policies : (c : RayCluster) → Concludes (reconcile_policies a r c)
  unfolding reconcile_policies
  Concludes-reconcile_policies c =
      Concludes-bind _ _ (StaysClean-kube_ray_namespaces a r) (λ namespaces.
        Concludes-bind _ _ (StaysClean-run_policy c namespaces) (λ o.
          Concludes-bind _ _ (StaysClean-try_apply a r o)
            (λ _. Concludes-bind _ _ (StaysClean-try_apply a r _) (λ _. Concludes-finish))))

  pub Concludes-reconcile_objects : (c : RayCluster) → Concludes (reconcile_objects a r c)
  unfolding reconcile_objects
  Concludes-reconcile_objects c = Concludes-bind _ _ (StaysClean-reconcile_ca a r c) (λ _.
      Concludes-bind _ _ (StaysClean-reconcile_access a r c) (λ _. Concludes-reconcile_policies c))

  Concludes-reconcile_cluster : (c : RayCluster) → Concludes (reconcile_cluster a r c)
  unfolding reconcile_cluster
  Concludes-reconcile_cluster c =
      Concludes-bind _ _ (StaysClean-reconcile_finalizer a r c) Concludes-reconcile_objects

  ends-not_found :
      (b : Bool) (e : a.Failure)
      → IsClean {F = a.Failure}
          (record { requeue_after = 0; error = if b then none else some (api e) })
  ends-not_found true e = inl (refl, refl)
  ends-not_found false e = inr (api e, refl)

  Concludes-got : (x : Result a.Failure RayCluster) → Concludes (got a r x)
  unfolding got
  Concludes-got (ok c) = Concludes-reconcile_cluster c
  Concludes-got (err e) = Concludes-stop _ (ends-not_found (a.is_not_found e) e)

  -- With a configuration, `Reconcile` comes to an end, whatever the API server answers: it does not
  -- panic, and returns either an error, or no error and no time to come back.
  pub reconcile-Concludes : (namespace name : String) → Concludes (reconcile a r namespace name)
  unfolding reconcile
  reconcile-Concludes namespace name = Concludes-bind _ _ (StaysClean-call _ _) Concludes-got
