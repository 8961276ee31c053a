-- ===== src/Controller/Complete/Met.antt =====
-- Every need of a cluster is met by a reconciliation that ends without an error.
use codeflare_operator.Base.{◌≡◌, refl, ◌⊎◌, some}
use codeflare_operator.Kube.{RayCluster}
use codeflare_operator.Controller.Api.{Api, Error}
use codeflare_operator.Controller.Effect.{World, Step, Call, next, done, panicked}
use codeflare_operator.Controller.Effect.Raises.{Raises-run}
use codeflare_operator.Controller.Effect.Sends.{
  Journal, asked, Found, Sent, Sends, Grows, Grows-of_Only, Grows-stop, Grows-bind, Sends-bind_run,
  Sends-now, Sends-later, grows_rules,
}
use codeflare_operator.Controller.Unconfigured.{Raises-kube_ray_namespaces}
use codeflare_operator.Controller.Policies.{desired_head_network_policy}
use codeflare_operator.Controller.Reconcile.{
  Reconciler, reconcile_ca, reconcile_access, reconcile_policies, reconcile_objects,
}
use codeflare_operator.Controller.Scope.Access.{Only-reconcile_access}
use codeflare_operator.Controller.Scope.Phases.{Only-reconcile_policies}
use codeflare_operator.Controller.Complete.{
  journal_of, Need, Meets, ca, proxy_route, proxy_secret, proxy_service, proxy_account,
  proxy_binding, client_route, dashboard_ingress, client_ingress, head_policy, workers_policy,
  Raises-try_apply, Sends-try_apply,
}
use codeflare_operator.Controller.Complete.Ca.{Raises-reconcile_ca, Sends-reconcile_ca}
use codeflare_operator.Controller.Complete.Access.{Raises-reconcile_access, Sends-reconcile_access}
use codeflare_operator.Config.{KubeRayConfiguration}
use codeflare_operator.Controller.Effect.Ends.{IsCleanEnd}
use codeflare_operator.Controller.Endings.{Concludes-reconcile_objects}

module _ (a : Api) (r : Reconciler) (c : RayCluster) where
  Sends-head_policy : Sends asked (Meets r c head_policy) (reconcile_policies a r c)
  unfolding reconcile_policies
  Sends-head_policy = Sends-later _ _ (Raises-kube_ray_namespaces a r) (λ namespaces.
      Sends-bind_run (desired_head_network_policy r.host c r.config namespaces) _ (λ o e.
        Sends-now _ _ (Sends-try_apply a r o (namespaces, o, e, refl)) (λ _. search grows_rules)))

  Sends-workers_policy : Sends asked (Meets r c workers_policy) (reconcile_policies a r c)
  unfolding reconcile_policies
  Sends-workers_policy = Sends-later _ _ (Raises-kube_ray_namespaces a r) (λ namespaces.
      Sends-later _ _ (Raises-run (desired_head_network_policy r.host c r.config namespaces)) (λ o.
        Sends-later _ _ (Raises-try_apply a r o)
          (λ _. Sends-now _ _ (Sends-try_apply a r _ refl) (λ _. Grows-stop _))))

  Grows-reconcile_access : Grows (reconcile_access a r c)
  Grows-reconcile_access = Grows-of_Only (Only-reconcile_access a r c)

  Grows-reconcile_policies : Grows (reconcile_policies a r c)
  Grows-reconcile_policies = Grows-of_Only (Only-reconcile_policies a r c)

  module _ {j : Journal} {Q : Call → Type 0} where
    in_ca : Sends j Q (reconcile_ca a r c) → Sends j Q (reconcile_objects a r c)
    unfolding reconcile_objects
    in_ca k =
        Sends-now _ _ k (λ _. Grows-bind _ _ Grows-reconcile_access (λ _. Grows-reconcile_policies))

    in_access : Sends j Q (reconcile_access a r c) → Sends j Q (reconcile_objects a r c)
    unfolding reconcile_objects
    in_access k =
        Sends-later _ _ (Raises-reconcile_ca a r c)
          (λ _. Sends-now _ _ k (λ _. Grows-reconcile_policies))

    in_policies : Sends j Q (reconcile_policies a r c) → Sends j Q (reconcile_objects a r c)
    unfolding reconcile_objects
    in_policies k =
        Sends-later _ _ (Raises-reconcile_ca a r c)
          (λ _. Sends-later _ _ (Raises-reconcile_access a r c) (λ _. k))

  Sends-reconcile_objects :
      (n : Need r c) → Sends (journal_of r c n) (Meets r c n) (reconcile_objects a r c)
  Sends-reconcile_objects (ca on) = in_ca (Sends-reconcile_ca a r c on)
  Sends-reconcile_objects head_policy = in_policies Sends-head_policy
  Sends-reconcile_objects workers_policy = in_policies Sends-workers_policy
  Sends-reconcile_objects (proxy_route on) =
      in_access (Sends-reconcile_access a r c (proxy_route on) tt)
  Sends-reconcile_objects (proxy_secret on) =
      in_access (Sends-reconcile_access a r c (proxy_secret on) tt)
  Sends-reconcile_objects (proxy_service on) =
      in_access (Sends-reconcile_access a r c (proxy_service on) tt)
  Sends-reconcile_objects (proxy_account on) =
      in_access (Sends-reconcile_access a r c (proxy_account on) tt)
  Sends-reconcile_objects (proxy_binding on) =
      in_access (Sends-reconcile_access a r c (proxy_binding on) tt)
  Sends-reconcile_objects (client_route on) =
      in_access (Sends-reconcile_access a r c (client_route on) tt)
  Sends-reconcile_objects (dashboard_ingress on) =
      in_access (Sends-reconcile_access a r c (dashboard_ingress on) tt)
  Sends-reconcile_objects (client_ingress on) =
      in_access (Sends-reconcile_access a r c (client_ingress on) tt)

  -- The step ended, and with an error unless the wanted call is in the journal.
  abbrev pub Settled :
      {A : Type 0} → Journal → (Call → Type 0) → Step a.Failure A → World a.State → Type 0
  Settled j Q (next x) w = ⊥
  Settled j Q (done o) w = ((e : Error a.Failure) × (o.error ≡ some e)) ⊎ Found j Q w
  Settled j Q panicked w = ⊥

  Settled-of_Sent :
      {A : Type 0} (j : Journal) (Q : Call → Type 0) (s : Step a.Failure A) (w : World a.State)
      → IsCleanEnd s
      → Sent j Q s w
      → Settled j Q s w
  Settled-of_Sent j Q (next x) w clean sent = absurd clean
  Settled-of_Sent j Q (done o) w clean sent = sent
  Settled-of_Sent j Q panicked w clean sent = absurd clean

  -- With a configuration, whatever the API server answers, what follows the finalizer comes to an end
  -- without a panic, and either ends with an error or has sent each object that the cluster needs,
  -- and the server has accepted it, except that it need not have accepted the network policies: with
  -- mTLS the CA secret; with OAuth on OpenShift, unless the cluster is suspended, the dashboard's
  -- route, the secret, the service, the service account and the ClusterRoleBinding of the proxy and
  -- the client's route; without OAuth elsewhere, unless the cluster is suspended, the ingresses of
  -- the dashboard and of the client, for the hosts of the configuration; and always the network
  -- policies of the head and of the workers.
  pub reconcile_objects-Settled :
      (cfg : KubeRayConfiguration)
      → r.config ≡ some cfg
      → (n : Need r c) (w : World a.State)
      → Settled
          (journal_of r c n)
          (Meets r c n)
          (reconcile_objects a r c w).0
          (reconcile_objects a r c w).1
  reconcile_objects-Settled cfg conf n w =
      Settled-of_Sent (journal_of r c n) (Meets r c n) _ _
        ((Concludes-reconcile_objects a r cfg conf c).at w) ((Sends-reconcile_objects n).at w)
