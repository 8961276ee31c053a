-- ===== src/Tests/Reconciliations.antt =====
-- The reconciler against a server that answers every call, with a given answer for the CA secret.
use codeflare_operator.Base.{ℕ, ◌≡◌, refl, true, false, Bool, some, none, [], ◌∷◌, ◌++◌}
use codeflare_operator.Base.Lists.{member, remove}
use codeflare_operator.Kube.{
  Pod, ServiceAccount, object_meta, secret, route, service, service_account, cluster_role_binding,
  ingress, network_policy,
}
use codeflare_operator.Naming.{crb_name_from_cluster, ca_secret_name_from_cluster}
use codeflare_operator.Controller.Api.{Api, Result, SecretData, ok, err, api}
use codeflare_operator.Controller.Effect.{
  World, done, finished, ◌>>=◌, call, pure, stop, run, update_ray_cluster,
  delete_cluster_role_binding, get_secret, apply,
}
use codeflare_operator.Controller.Effect.Only.{Only}
use codeflare_operator.Controller.Effect.Sends.{answered}
use codeflare_operator.Controller.Effect.Raises.{Raises, ended_well}
use codeflare_operator.Controller.Unconfigured.{reconcile_policies-Raises}
use codeflare_operator.Controller.Effect.Ends.{Concludes}
use codeflare_operator.Controller.Desired.{
  ca_private_key_key, ca_cert_key, desired_oauth_cluster_role_binding,
}
use codeflare_operator.Controller.Secrets.{missing_secrets}
use codeflare_operator.Controller.Reconcile.{
  Reconciler, requeue, is_mtls_enabled, is_ray_cluster_suspended, is_ray_dashboard_oauth_enabled,
  reconcile_ca, reconcile_objects, reconcile_policies, reconcile_cluster, reconcile,
}
use codeflare_operator.Controller.Endings.{reconcile-Concludes}
use codeflare_operator.Controller.Scope.{Scoped}
use codeflare_operator.Controller.Scope.Phases.{reconcile_objects-Scoped}
use codeflare_operator.Controller.Phases.{
  is_ok, deletion, without_finalizer, reconcile_cluster-deleted, reconcile_ca-failed,
}
use codeflare_operator.Controller.Policies.{desired_head_network_policy}
use codeflare_operator.Controller.Complete.{Meets, ca}
use codeflare_operator.Controller.Complete.Met.{Settled, reconcile_objects-Settled}
use codeflare_operator.Controller.Watch.{requests_of, requests_of-desired}
use codeflare_operator.Controller.Missing.{member-missing_secrets}
use codeflare_operator.Tests.Data.{host, configuration, cluster, deleted_cluster}

-- A failure is whether the object was not found.
abbrev pub server : Result Bool SecretData → Api
server found = record {
  State = Unit {0};
  Failure = Bool;
  is_not_found = λ e. e;
  contains_finalizer = λ c f. member f c.finalizers;
  add_finalizer = λ c f. record c { finalizers = c.finalizers ++ f ∷ [] };
  remove_finalizer = λ c f. record c { finalizers = remove f c.finalizers };
  get_ray_cluster = λ namespace name s. (ok cluster, s);
  update_ray_cluster = λ c s. (ok c, s);
  delete_cluster_role_binding = λ name policy s. (err true, s);
  get_secret = λ namespace name s. (found, s);
  apply = λ field_manager force o s. (ok tt, s);
  get_service_account = λ namespace name s. (err false, s);
  list_pods = λ namespace selector s. (ok [], s);
  delete_pod = λ namespace name s. (ok tt, s);
  get_dsci_applications_namespace = λ name s. (ok "opendatahub", s);
  Time = ℕ;
  PrivateKey = ℕ;
  PublicKey = ℕ;
  random_int63 = λ s. (7, s);
  now = λ s. (0, s);
  add_date = λ t years months days. t;
  generate_key = λ bits s. (ok 3, s);
  public_key = λ k. k;
  create_certificate = λ template parent public private s. (ok (1 ∷ []), s);
  marshal_pkcs1_private_key = λ k. k ∷ [];
  pem_encode = λ kind bytes. bytes;
}

abbrev pub secret_data : SecretData
secret_data = (ca_private_key_key, 1 ∷ 2 ∷ []) ∷ (ca_cert_key, 3 ∷ 4 ∷ []) ∷ []

abbrev pub reconciler : Reconciler
reconciler = record {
  host = host;
  cookie_salt = "salt";
  config = some configuration;
  is_openshift = true;
}

abbrev start : World (Unit {0})
start = record { server = tt; log = []; accepted = [] }

mtls_is_on : is_mtls_enabled reconciler.config ≡ true
unfolding is_mtls_enabled
mtls_is_on = refl

reconcile-Concludes_example :
    Concludes (reconcile (server (ok secret_data)) reconciler "default" "raytest")
reconcile-Concludes_example =
    reconcile-Concludes (server (ok secret_data)) reconciler configuration refl "default" "raytest"

reconcile_objects-Scoped_example :
    Only
      (Scoped (server (ok secret_data)) reconciler cluster)
      (reconcile_objects (server (ok secret_data)) reconciler cluster)
reconcile_objects-Scoped_example =
    reconcile_objects-Scoped (server (ok secret_data)) reconciler cluster

reconcile_objects-Settled_example :
    Settled
      (server (ok secret_data))
      reconciler
      cluster
      answered
      (Meets reconciler cluster (ca mtls_is_on))
      (reconcile_objects (server (ok secret_data)) reconciler cluster start).0
      (reconcile_objects (server (ok secret_data)) reconciler cluster start).1
reconcile_objects-Settled_example =
    reconcile_objects-Settled (server (ok secret_data)) reconciler cluster configuration refl
      (ca mtls_is_on) start

abbrev vanilla : Reconciler
vanilla = record reconciler { is_openshift = false }

-- A reconciliation that the theorem speaks of and that ends without an error.
reconcile_objects_test :
    (reconcile_objects (server (ok secret_data)) vanilla cluster start).0 ≡ done finished
unfolding reconcile_objects ◌>>=◌ is_mtls_enabled call pure is_ray_cluster_suspended
    is_ray_dashboard_oauth_enabled stop run desired_head_network_policy
reconcile_objects_test = refl

reconcile_cluster-deleted_example :
    ((reconcile_cluster (server (ok secret_data)) reconciler deleted_cluster start).1.log
      ≡ delete_cluster_role_binding (crb_name_from_cluster host deleted_cluster) "Foreground"
        ∷ update_ray_cluster (record deleted_cluster { finalizers = [] })
        ∷ [])
    × (ended_well (reconcile_cluster (server (ok secret_data)) reconciler deleted_cluster start).0
        ≡ true)
unfolding deletion without_finalizer is_ok
reconcile_cluster-deleted_example =
    reconcile_cluster-deleted (server (ok secret_data)) reconciler deleted_cluster start refl refl

-- A server that keeps the secret that was applied last.
abbrev keeping : Api
keeping = record {
  State = Result Bool SecretData;
  Failure = Bool;
  is_not_found = λ e. e;
  contains_finalizer = λ c f. member f c.finalizers;
  add_finalizer = λ c f. c;
  remove_finalizer = λ c f. c;
  get_ray_cluster = λ namespace name s. (ok cluster, s);
  update_ray_cluster = λ c s. (ok c, s);
  delete_cluster_role_binding = λ name policy s. (ok tt, s);
  get_secret = λ namespace name s. (s, s);
  apply = λ field_manager force o s. (
    ok tt,
    elim o [
      | secret meta bytes string_data ↦ ok bytes
      | route meta spec ↦ s
      | service meta ports selector ↦ s
      | service_account meta ↦ s
      | cluster_role_binding meta subjects role_ref ↦ s
      | ingress meta spec ↦ s
      | network_policy meta spec ↦ s
    ],
  );
  get_service_account = λ namespace name s. (err false, s);
  list_pods = λ namespace selector s. (ok [], s);
  delete_pod = λ namespace name s. (ok tt, s);
  get_dsci_applications_namespace = λ name s. (ok "opendatahub", s);
  Time = ℕ;
  PrivateKey = ℕ;
  PublicKey = ℕ;
  random_int63 = λ s. (7, s);
  now = λ s. (0, s);
  add_date = λ t years months days. t;
  generate_key = λ bits s. (ok 3, s);
  public_key = λ k. k;
  create_certificate = λ template parent public private s. (ok (1 ∷ []), s);
  marshal_pkcs1_private_key = λ k. k ∷ [];
  pem_encode = λ kind bytes. bytes;
}

abbrev no_secret : World (Result Bool SecretData)
no_secret = record { server = err true; log = []; accepted = [] }

-- The state that the first reconciliation of a cluster without a CA secret leaves.
abbrev generated : SecretData
generated = (ca_private_key_key, 3 ∷ []) ∷ (ca_cert_key, 1 ∷ []) ∷ []

abbrev with_secret : World (Result Bool SecretData)
with_secret = record { server = ok generated; log = []; accepted = [] }

reconcile_ca-failed_test :
    ((reconcile_ca (server (err false)) reconciler cluster start).0
      ≡ done (requeue (server (err false)) (api false)))
    × ((reconcile_ca (server (err false)) reconciler cluster start).1.log
        ≡ get_secret "default" (ca_secret_name_from_cluster host cluster) ∷ [])
reconcile_ca-failed_test =
    reconcile_ca-failed (server (err false)) reconciler cluster start mtls_is_on false refl refl

abbrev account : ServiceAccount
account = record { name = "raytest"; namespace = "default"; image_pull_secrets = "a" ∷ "b" ∷ [] }

abbrev head : Pod
head = record {
  name = "raytest-head";
  namespace = "default";
  spec = record {
    containers = [];
    init_containers = [];
    volumes = [];
    service_account_name = "raytest";
    image_pull_secrets = "a" ∷ [];
    others = [];
  };
}

member-missing_secrets_example : member "b" (missing_secrets account head) ≡ true
member-missing_secrets_example = member-missing_secrets "b" account head

requests_of-desired_example :
    requests_of (object_meta (desired_oauth_cluster_role_binding host cluster)).labels
    ≡ record { name = "raytest"; namespace = "default" } ∷ []
requests_of-desired_example = requests_of-desired host cluster

abbrev unconfigured : Reconciler
unconfigured = record { host = host; cookie_salt = "salt"; config = none; is_openshift = true }

reconcile_policies-Raises_example :
    Raises (reconcile_policies (server (ok secret_data)) unconfigured cluster)
reconcile_policies-Raises_example =
    reconcile_policies-Raises (server (ok secret_data)) unconfigured cluster refl
