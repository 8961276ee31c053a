-- ===== src/Controller/Complete.antt =====
-- What every reconciliation without an error has applied
-- (pkg/controllers/raycluster_controller.go): the needs of a cluster and the calls that meet them.
pub mod Ca
pub mod Access
pub mod Met
use codeflare_operator.Base.{
  ◌≡◌, refl, ap, ◌∙◌, sym, ◌⊎◌, inl, inr, Bool, true, false, not, ◌&&◌, ◌||◌, Option, none, some,
  String, ℕ, List, [], ◌∷◌, if◌then◌else◌,
}
use mathlib.Core.List.{Memᴰ}
use mathlib.Core.List.Memᴰ.{append_right}
use codeflare_operator.Base.Run.{Run, returns, panics}
use codeflare_operator.Base.Lists.{is_empty}
use codeflare_operator.Kube.{RayCluster, Object, head_pod}
use codeflare_operator.Naming.{
  controller_name, dashboard_name_from_cluster, ray_client_name_from_cluster,
}
use codeflare_operator.Controller.Api.{
  Result-cases, Api, Error, Result, SecretData, ok, err, api, message,
}
use codeflare_operator.Controller.Effect.{
  M, World, Step, Outcome, Call, apply, next, done, panicked, ◌>>=◌, pure, stop, run, call,
  finished,
}
use codeflare_operator.Controller.Effect.Raises.{
  ended_well, Raises, Raises-pure, Raises-stop, Raises-call, Raises-if, Raises-bind, raises_rules,
}
use codeflare_operator.Controller.Effect.Sends.{
  Journal, asked, answered, Found, Sent, Sends, Grows, Grows-of_Only, Grows-pure, Grows-stop,
  Grows-run, Grows-bind, Sends-call, Sends-now, Sends-later, grows_rules, sends_rules,
}
use codeflare_operator.Controller.Unconfigured.{Raises-or_requeue, Raises-kube_ray_namespaces}
use codeflare_operator.Controller.Certificate.{generate_ca_certificate}
use codeflare_operator.Controller.Desired.{
  desired_ca_secret, desired_cluster_route, desired_oauth_secret, desired_oauth_service,
  desired_service_account, desired_oauth_cluster_role_binding, desired_ray_client_route,
  desired_cluster_ingress, desired_ray_client_ingress,
}
use codeflare_operator.Controller.Policies.{
  desired_head_network_policy, desired_workers_network_policy,
}
use codeflare_operator.Controller.Secrets.{delete_head_pod_if_missing_image_pull_secrets}
use codeflare_operator.Controller.Reconcile.{
  Reconciler, requeue, or_requeue, try_apply, apply_object, ca_secret_from, reconcile_ca,
  check_head_pod, reconcile_oauth, ingress_host, reconcile_ingresses, reconcile_access,
  get_ingress_host, reconcile_policies, reconcile_objects, is_ray_cluster_suspended,
  is_ray_dashboard_oauth_enabled, is_mtls_enabled, kube_ray_namespaces, data_of,
}
use codeflare_operator.Controller.Scope.{HasOauth, HasIngresses}
use codeflare_operator.Controller.Scope.Objects.{Only-generate_ca_certificate}
use codeflare_operator.Controller.Scope.Access.{
  Only-check_head_pod, Only-reconcile_oauth, Only-reconcile_ingresses, Only-reconcile_access,
}
use codeflare_operator.Controller.Scope.Phases.{Only-reconcile_policies, Only-kube_ray_namespaces}

module _ (r : Reconciler) (c : RayCluster) where
  -- What a cluster that is not being deleted needs.
  pub data Need : Type 0 where
    ca : is_mtls_enabled r.config ≡ true → Need
    proxy_route : HasOauth r c → Need
    proxy_secret : HasOauth r c → Need
    proxy_service : HasOauth r c → Need
    proxy_account : HasOauth r c → Need
    proxy_binding : HasOauth r c → Need
    client_route : HasOauth r c → Need
    dashboard_ingress : HasIngresses r c → Need
    client_ingress : HasIngresses r c → Need
    head_policy : Need
    workers_policy : Need

  abbrev pub Applies : Object → Call → Type 0
  Applies o x = x ≡ apply controller_name true o

  -- The call that meets a need.
  abbrev pub Meets : Need → Call → Type 0
  Meets (ca _) x =
      (key : List ℕ) × (cert : List ℕ) × Applies (desired_ca_secret r.host c key cert) x
  Meets (proxy_route _) x = Applies (desired_cluster_route r.host c) x
  Meets (proxy_secret _) x = Applies (desired_oauth_secret r.host c r.cookie_salt) x
  Meets (proxy_service _) x = Applies (desired_oauth_service r.host c) x
  Meets (proxy_account _) x = Applies (desired_service_account r.host c) x
  Meets (proxy_binding _) x = Applies (desired_oauth_cluster_role_binding r.host c) x
  Meets (client_route _) x = Applies (desired_ray_client_route c) x
  Meets (dashboard_ingress _) x =
      (host : String) × (get_ingress_host r.config c (dashboard_name_from_cluster c) ≡ ok host)
      × Applies (desired_cluster_ingress c host) x
  Meets (client_ingress _) x =
      (host : String) × (get_ingress_host r.config c (ray_client_name_from_cluster c) ≡ ok host)
      × Applies (desired_ray_client_ingress c host) x
  Meets head_policy x =
      (namespaces : List String) × (o : Object) × (desired_head_network_policy r.host c r.config
          namespaces
        ≡ returns o)
      × Applies o x
  Meets workers_policy x = Applies (desired_workers_network_policy r.host c) x

  -- A network policy need only have been sent: a failure to apply it is logged and dropped.
  abbrev pub journal_of : Need → Journal
  journal_of head_policy = asked
  journal_of workers_policy = asked
  journal_of _ = answered

module _ (a : Api) (r : Reconciler) where
  pub Raises-try_apply : (o : Object) → Raises (try_apply a r o)
  unfolding try_apply
  Raises-try_apply o = Raises-call _ _

  pub Raises-apply_object : (o : Object) → Raises (apply_object a r o)
  unfolding apply_object
  Raises-apply_object o = search (raises_rules, Raises-or_requeue a)

  pub Grows-or_requeue : {A : Type 0} (x : Result a.Failure A) → Grows (or_requeue a x)
  unfolding or_requeue
  Grows-or_requeue (ok x) = Grows-pure x
  Grows-or_requeue (err e) = Grows-stop _

  pub Grows-try_apply : (o : Object) → Grows (try_apply a r o)
  unfolding try_apply
  Grows-try_apply o = search grows_rules

  pub Grows-apply_object : (o : Object) → Grows (apply_object a r o)
  unfolding apply_object
  Grows-apply_object o = search (grows_rules, Grows-or_requeue)

  pub Sends-try_apply :
      {Q : Call → Type 0} (o : Object)
      → Q (apply controller_name true o)
      → Sends asked Q (try_apply a r o)
  unfolding try_apply
  Sends-try_apply o q = Sends-call _ _ q

  -- The action goes on only if the server has accepted the object.
  pub Sends-apply_object :
      {Q : Call → Type 0} (o : Object)
      → Q (apply controller_name true o)
      → Sends answered Q (apply_object a r o)
  unfolding apply_object try_apply or_requeue ◌>>=◌ call pure stop
  Sends-apply_object o q = record {
    at = λ w. elim (Result-cases (a.apply controller_name true o w.server).0) [
      | inl (u, e) ↦ rw e (_, q, append_right w.accepted (Memᴰ.head refl))
      | inr (f, e) ↦ rw e (inl (api f, refl))
    ];
  }
