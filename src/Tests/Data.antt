-- ===== src/Tests/Data.antt =====
-- A host, a webhook and clusters to run the definitions on.
use codeflare_operator.Base.{ℕ, String, true, Option, none, some, List, [], ◌∷◌, refl}
use codeflare_operator.Base.Run.{Run, returns, panics}
use codeflare_operator.Host.{Host, IsSha256}
use codeflare_operator.Config.{KubeRayConfiguration}
use codeflare_operator.Kube.{Container, PodSpec, RayCluster, WorkerGroupSpec}
use codeflare_operator.Naming.{version_annotation}
use codeflare_operator.Webhook.Default.{RayClusterWebhook}

abbrev bytes : List ℕ
bytes =
    171 ∷ 2 ∷ 3 ∷ 4 ∷ 5 ∷ 6 ∷ 7 ∷ 8 ∷ 9 ∷ 10 ∷ 11 ∷ 12 ∷ 13 ∷ 14 ∷ 15 ∷ 16 ∷ 17 ∷ 18 ∷ 19 ∷ 20 ∷ 21
    ∷ 22 ∷ 23 ∷ 24 ∷ 25 ∷ 26 ∷ 27 ∷ 28 ∷ 29 ∷ 30 ∷ 31 ∷ 32 ∷ []

-- Without variables, and with one hash for all texts: every two texts collide.
abbrev pub host : Host
host = record {
  lookup_env = λ key. none;
  sum256 = λ s. bytes;
  sum1 = λ s. [];
  encode_base64 = λ text. "";
}

pub host-IsSha256 : IsSha256 host
host-IsSha256 = record { size = λ s. refl }

abbrev pub configuration : KubeRayConfiguration
configuration = record {
  ray_dashboard_oauth_enabled = some true;
  ingress_domain = "apps.example.com";
  mtls_enabled = none;
}

abbrev pub webhook : RayClusterWebhook
webhook = record { config = some configuration; operator_version = "v1.9.0" }

abbrev container : String → Container
container name = record {
  name = name;
  image = "quay.io/project-codeflare/ray:latest";
  command = [];
  args = [];
  ports = [];
  env = record { name = "RAY_USE_TLS"; value = "0"; value_from = none } ∷ [];
  volume_mounts = [];
  others = [];
}

abbrev pod : List Container → PodSpec
pod containers = record {
  containers = containers;
  init_containers = [];
  volumes = [];
  service_account_name = "default";
  image_pull_secrets = [];
  others = [];
}

abbrev workers : WorkerGroupSpec
workers = record {
  template = record { spec = pod (container "worker" ∷ []); others = [] };
  others = [];
}

-- A cluster by the name of its head container, its own name, its namespace and its annotations.
abbrev pub cluster_of :
    String → String → String → Option (List (String × String)) → Option ℕ → RayCluster
cluster_of head name namespace annotations deletion_timestamp = record {
  api_version = "ray.io/v1";
  kind = "RayCluster";
  name = name;
  namespace = namespace;
  uid = "uid-1";
  annotations = annotations;
  finalizers = "ray.openshift.ai/oauth-finalizer" ∷ [];
  deletion_timestamp = deletion_timestamp;
  spec = record {
    head_group_spec = record {
      template = record { spec = pod (container head ∷ []); others = [] };
      enable_ingress = none;
      others = [];
    };
    worker_group_specs = workers ∷ [];
    suspend = none;
    others = [];
  };
  others = [];
}

abbrev pub cluster : RayCluster
cluster = cluster_of "ray-head" "raytest" "default" none none

abbrev pub proxy_cluster : RayCluster
proxy_cluster = cluster_of "oauth-proxy" "raytest" "default" none none

abbrev pub deleted_cluster : RayCluster
deleted_cluster = cluster_of "ray-head" "raytest" "default" none (some 1700000000)

abbrev pub annotated : String → String → RayCluster
annotated name namespace =
    cluster_of "ray-head" name namespace (some ((version_annotation, "v1.9.0") ∷ [])) none

abbrev pub value_or : {A : Type 0} → Run A → A → A
value_or (returns a) d = a
value_or panics d = d
