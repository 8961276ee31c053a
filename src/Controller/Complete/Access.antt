-- ===== src/Controller/Complete/Access.antt =====
-- The objects of the OAuth proxy, or the ingresses, are applied whenever the phase goes on.
use codeflare_operator.Base.{
  ◌≡◌, refl, inl, Bool, true, false, not, ◌&&◌, Option, none, some, String,
}
use codeflare_operator.Base.Lists.{is_empty}
use codeflare_operator.Kube.{RayCluster, Object, Pod, ServiceAccount, head_pod}
use codeflare_operator.Naming.{dashboard_name_from_cluster, ray_client_name_from_cluster}
use codeflare_operator.Controller.Api.{Api, Error, Result, ok, err, api, message, wrapped}
use codeflare_operator.Controller.Effect.{M, Call, ◌>>=◌, pure, stop}
use codeflare_operator.Controller.Effect.Raises.{
  Raises, Raises-pure, Raises-stop, Raises-call, Raises-if, Raises-bind, raises_rules,
}
use codeflare_operator.Controller.Effect.Sends.{
  Journal, answered, Sends, Grows, Grows-of_Only, Sends-if_true, Sends-if_false, Sends-now,
  Sends-later, grows_rules, sends_rules,
}
use codeflare_operator.Controller.Desired.{
  desired_cluster_route, desired_oauth_secret, desired_oauth_service, desired_service_account,
  desired_oauth_cluster_role_binding, desired_ray_client_route,
}
use codeflare_operator.Controller.Secrets.{
  head_pod_of, get_head_pod, delete_missing, delete_head_pod_if_missing_image_pull_secrets,
}
use codeflare_operator.Controller.Reconcile.{
  Reconciler, requeue, apply_object, check_head_pod, reconcile_oauth, ingress_host,
  reconcile_ingresses, reconcile_access, get_ingress_host,
}
use codeflare_operator.Controller.Scope.{HasOauth, HasIngresses}
use codeflare_operator.Controller.Scope.Access.{Only-check_head_pod, Only-ingress_host}
use codeflare_operator.Controller.Complete.{
  journal_of, Need, Meets, Applies, ca, proxy_route, proxy_secret, proxy_service, proxy_account,
  proxy_binding, client_route, dashboard_ingress, client_ingress, head_policy, workers_policy,
  Raises-apply_object, Grows-apply_object, Sends-apply_object,
}

-- The conditions of the phase.
all_hold : (s o b : Bool) → s ≡ false → o ≡ true → b ≡ true → (not s && o && b) ≡ true
all_hold s o b hs ho hb = rw (hs, ho, hb) refl

none_holds : (s o b : Bool) → s ≡ false → o ≡ false → b ≡ false → (not s && not o && not b) ≡ true
none_holds s o b hs ho hb = rw (hs, ho, hb) refl

oauth_fails : (s o b : Bool) → o ≡ false → (not s && o && b) ≡ false
oauth_fails true o b ho = refl
oauth_fails false o b ho = rw ho refl

module _ (a : Api) (r : Reconciler) (c : RayCluster) where
  Raises-with_failure :
      (failed : Option (Error a.Failure))
      → Raises {F = a.Failure} {S = a.State} {A = Unit {0}}
          (elim failed [ none ↦ pure tt | some e ↦ stop (requeue a e) ])
  Raises-with_failure none = Raises-pure tt
  Raises-with_failure (some e) = Raises-stop (requeue a e) e refl

  Raises-delete_missing :
      (account : ServiceAccount) (pod : Option Pod) → Raises (delete_missing a account pod)
  unfolding delete_missing
  Raises-delete_missing account none = Raises-pure none
  Raises-delete_missing account (some pod) = search raises_rules

  Raises-with_pod :
      (account : ServiceAccount) (x : Result a.Failure (Option Pod))
      → Raises {F = a.Failure} {S = a.State} (elim x [
        | err e ↦ pure (some (wrapped "failed to get head pod" (api e)))
        | ok pod ↦ delete_missing a account pod
      ])
  Raises-with_pod account (err e) = Raises-pure _
  Raises-with_pod account (ok pod) = Raises-delete_missing account pod

  Raises-head_pod_of : (x : Result a.Failure ServiceAccount) → Raises (head_pod_of a c x)
  unfolding head_pod_of get_head_pod delete_missing
  Raises-head_pod_of (err e) = Raises-pure _
  Raises-head_pod_of (ok account) =
      Raises-bind (get_head_pod a c) _ (search raises_rules) (Raises-with_pod account)

  Raises-check_head_pod : Raises (check_head_pod a r c)
  unfolding check_head_pod delete_head_pod_if_missing_image_pull_secrets
  Raises-check_head_pod =
      Raises-if (is_empty (head_pod c).image_pull_secrets) _ _
        (Raises-bind _ _ (Raises-bind _ _ (Raises-call _ _) Raises-head_pod_of) Raises-with_failure)
        (Raises-pure tt)

  Raises-with_host :
      (x : Result String String)
      → Raises {F = a.Failure} {S = a.State}
          (elim x [ ok host ↦ pure host | err text ↦ stop (requeue a (message text)) ])
  Raises-with_host (ok host) = Raises-pure host
  Raises-with_host (err text) = Raises-stop _ (message text) refl

  Raises-ingress_host : (name : String) → Raises (ingress_host a r c name)
  unfolding ingress_host
  Raises-ingress_host name = Raises-with_host (get_ingress_host r.config c name)

  Raises-reconcile_oauth : Raises (reconcile_oauth a r c)
  unfolding reconcile_oauth
  Raises-reconcile_oauth =
      search (raises_rules, Raises-apply_object a r, Raises-check_head_pod) depth 12

  Raises-reconcile_ingresses : Raises (reconcile_ingresses a r c)
  unfolding reconcile_ingresses
  Raises-reconcile_ingresses =
      search (raises_rules, Raises-apply_object a r, Raises-ingress_host) depth 12

  pub Raises-reconcile_access : Raises (reconcile_access a r c)
  unfolding reconcile_access
  Raises-reconcile_access =
      search (raises_rules, Raises-reconcile_oauth, Raises-reconcile_ingresses)

  Grows-check_head_pod : HasOauth r c → Grows (check_head_pod a r c)
  Grows-check_head_pod on = Grows-of_Only (Only-check_head_pod a r c on)

  Sends-self : (o : Object) → Sends answered (Applies r c o) (apply_object a r o)
  Sends-self o = Sends-apply_object a r o refl

  Sends-proxy_route :
      HasOauth r c
      → Sends answered (Applies r c (desired_cluster_route r.host c)) (reconcile_oauth a r c)
  unfolding reconcile_oauth
  Sends-proxy_route on =
      search
        (
          sends_rules,
          grows_rules,
          Sends-self,
          (Grows-apply_object a r),
          Grows-check_head_pod,
          (Raises-apply_object a r),
          Raises-check_head_pod,
        )
        depth 14

  Sends-proxy_secret :
      HasOauth r c
      → Sends answered
          (Applies r c (desired_oauth_secret r.host c r.cookie_salt))
          (reconcile_oauth a r c)
  unfolding reconcile_oauth
  Sends-proxy_secret on =
      search
        (
          sends_rules,
          grows_rules,
          Sends-self,
          (Grows-apply_object a r),
          Grows-check_head_pod,
          (Raises-apply_object a r),
          Raises-check_head_pod,
        )
        depth 14

  Sends-proxy_service :
      HasOauth r c
      → Sends answered (Applies r c (desired_oauth_service r.host c)) (reconcile_oauth a r c)
  unfolding reconcile_oauth
  Sends-proxy_service on =
      search
        (
          sends_rules,
          grows_rules,
          Sends-self,
          (Grows-apply_object a r),
          Grows-check_head_pod,
          (Raises-apply_object a r),
          Raises-check_head_pod,
        )
        depth 14

  Sends-proxy_account :
      HasOauth r c
      → Sends answered (Applies r c (desired_service_account r.host c)) (reconcile_oauth a r c)
  unfolding reconcile_oauth
  Sends-proxy_account on =
      search
        (
          sends_rules,
          grows_rules,
          Sends-self,
          (Grows-apply_object a r),
          Grows-check_head_pod,
          (Raises-apply_object a r),
          Raises-check_head_pod,
        )
        depth 14

  Sends-proxy_binding :
      HasOauth r c
      → Sends answered
          (Applies r c (desired_oauth_cluster_role_binding r.host c))
          (reconcile_oauth a r c)
  unfolding reconcile_oauth
  Sends-proxy_binding on =
      search
        (
          sends_rules,
          grows_rules,
          Sends-self,
          (Grows-apply_object a r),
          (Raises-apply_object a r),
          Raises-check_head_pod,
        )
        depth 14

  Sends-client_route :
      HasOauth r c
      → Sends answered (Applies r c (desired_ray_client_route c)) (reconcile_oauth a r c)
  unfolding reconcile_oauth
  Sends-client_route on =
      search
        (sends_rules, grows_rules, Sends-self, (Raises-apply_object a r), Raises-check_head_pod)
        depth 14

  -- After a host that can be made.
  Sends-with_host :
      {j : Journal} {Q : Call → Type 0} (x : Result String String)
      (f : String → M a.Failure a.State (Unit {0}))
      → ((host : String) → x ≡ ok host → Sends j Q (f host))
      → Sends {F = a.Failure} {S = a.State} j Q
          ((elim x [ ok host ↦ pure host | err text ↦ stop (requeue a (message text)) ]) >>= f)
  unfolding ◌>>=◌ pure stop
  Sends-with_host (ok host) f kf = record { at = λ w. (kf host refl).at w }
  Sends-with_host (err text) f kf = record { at = λ w. inl (message text, refl) }

  Grows-ingress_host : (name : String) → Grows (ingress_host a r c name)
  Grows-ingress_host name = Grows-of_Only (Only-ingress_host a r c name)

  Sends-dashboard_ingress :
      (on : HasIngresses r c)
      → Sends answered (Meets r c (dashboard_ingress on)) (reconcile_ingresses a r c)
  unfolding reconcile_ingresses ingress_host
  Sends-dashboard_ingress on =
      Sends-with_host (get_ingress_host r.config c (dashboard_name_from_cluster c)) _ (λ host e.
        Sends-now _ _ (Sends-apply_object a r _ (host, e, refl))
          (λ _. search (grows_rules, Grows-apply_object a r, Grows-ingress_host)))

  Sends-client_ingress :
      (on : HasIngresses r c)
      → Sends answered (Meets r c (client_ingress on)) (reconcile_ingresses a r c)
  unfolding reconcile_ingresses ingress_host
  Sends-client_ingress on =
      Sends-later _ _ (Raises-ingress_host (dashboard_name_from_cluster c)) (λ dashboard_host.
        Sends-later _ _ (Raises-apply_object a r _) (λ _.
          Sends-with_host (get_ingress_host r.config c (ray_client_name_from_cluster c)) _
            (λ host e. Sends-apply_object a r _ (host, e, refl))))

  module _ {j : Journal} {Q : Call → Type 0} where
    Sends-with_oauth :
        HasOauth r c → Sends j Q (reconcile_oauth a r c) → Sends j Q (reconcile_access a r c)
    unfolding reconcile_access
    Sends-with_oauth (suspended, oauth, openshift) k =
        Sends-if_true _ _ _ (all_hold _ _ _ suspended oauth openshift) k

    Sends-with_ingresses :
        HasIngresses r c
        → Sends j Q (reconcile_ingresses a r c)
        → Sends j Q (reconcile_access a r c)
    unfolding reconcile_access
    Sends-with_ingresses (suspended, oauth, openshift) k =
        Sends-if_false _ _ _ (oauth_fails _ _ _ oauth)
          (Sends-if_true _ _ _ (none_holds _ _ _ suspended oauth openshift) k)

  -- The needs that the phase meets.
  abbrev pub OfAccess : Need r c → Type 0
  OfAccess (ca on) = ⊥
  OfAccess head_policy = ⊥
  OfAccess workers_policy = ⊥
  OfAccess _ = Unit

  pub Sends-reconcile_access :
      (n : Need r c) → OfAccess n → Sends (journal_of r c n) (Meets r c n) (reconcile_access a r c)
  Sends-reconcile_access (ca on) h = absurd h
  Sends-reconcile_access (proxy_route on) h = Sends-with_oauth on (Sends-proxy_route on)
  Sends-reconcile_access (proxy_secret on) h = Sends-with_oauth on (Sends-proxy_secret on)
  Sends-reconcile_access (proxy_service on) h = Sends-with_oauth on (Sends-proxy_service on)
  Sends-reconcile_access (proxy_account on) h = Sends-with_oauth on (Sends-proxy_account on)
  Sends-reconcile_access (proxy_binding on) h = Sends-with_oauth on (Sends-proxy_binding on)
  Sends-reconcile_access (client_route on) h = Sends-with_oauth on (Sends-client_route on)
  Sends-reconcile_access (dashboard_ingress on) h =
      Sends-with_ingresses on (Sends-dashboard_ingress on)
  Sends-reconcile_access (client_ingress on) h = Sends-with_ingresses on (Sends-client_ingress on)
  Sends-reconcile_access head_policy h = absurd h
  Sends-reconcile_access workers_policy h = absurd h
