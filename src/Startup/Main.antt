-- ===== src/Startup/Main.antt =====
-- `main` of main.go, up to and including the run of the manager.
use codeflare_operator.Base.{
  String, ◌<>◌, true, false, none, some, [], ◌∷◌, ◌==◌, if◌then◌else◌, deref,
}
use codeflare_operator.Host.{Host}
use codeflare_operator.Config.Manager.{Foreign, CodeFlareOperatorConfiguration}
use codeflare_operator.Controller.Api.{Result, ok, err}
use codeflare_operator.Controller.Desired.{ray_cluster_name_label}
use codeflare_operator.Startup.Platform.{
  Platform, KubeConfig, CacheOptions, ManagerOptions, CertRotator, validating, mutating,
}
use codeflare_operator.Startup.Effect.{
  Act, lift, ◌>>=◌, ◌>>◌, pure, ask, exit_on_error, pointee, note, rotates, checks_health,
  checks_readiness, spawns_ray, spawns_app_wrapper, starts,
}
use codeflare_operator.Startup.Load.{Configuration, namespace_or_die, load_into_or_create}
use codeflare_operator.Startup.Discovery.{
  cache_by_object, app_wrapper_enabled, is_openshift, get_cluster_domain,
}

-- The configuration before the ConfigMap is read.
unfoldable pub default_configuration : (f : Foreign) → CodeFlareOperatorConfiguration f
default_configuration f = record {
  client_connection = some (record { qps = some (f.float32 50); burst = some (f.int32 100) });
  controller_manager = record {
    metrics = record { bind_address = ":8080" };
    health = record {
      bind_address = ":8081";
      readiness_endpoint_name = "readyz";
      liveness_endpoint_name = "healthz";
    };
    leader_election = some (record {
      leader_elect = none;
      lease_duration = f.no_duration;
      renew_deadline = f.no_duration;
      retry_period = f.no_duration;
      resource_lock = "";
      resource_name = "";
      resource_namespace = "";
    });
  };
  kube_ray = some (record {
    ray_dashboard_oauth_enabled = some true;
    ingress_domain = "";
    mtls_enabled = some true;
  });
  app_wrapper = some (record { enabled = some false; config = some f.new_app_wrapper_config });
}

-- The rotator of `setupCertManagement`.
unfoldable pub cert_rotator : String → CertRotator
cert_rotator namespace = record {
  secret_namespace = namespace;
  secret_name = "codeflare-operator-webhook-server-cert";
  cert_dir = "/tmp/k8s-webhook-server/serving-certs";
  ca_name = "codeflare";
  ca_organization = "openshift.ai";
  dns_name = "codeflare-operator-webhook-service" <> "." <> namespace <> ".svc";
  webhooks =
      (validating, "codeflare-operator-validating-webhook-configuration")
      ∷ (mutating, "codeflare-operator-mutating-webhook-configuration")
      ∷ [];
  require_leader_election = false;
}

module _ (p : Platform) where
  unfoldable pub with_user_agent : KubeConfig p.foreign → KubeConfig p.foreign
  with_user_agent k =
      if k.user_agent == "" then record k { user_agent = "codeflare-operator" } else k

  -- The limits of the client.
  unfoldable pub limited : KubeConfig p.foreign → Configuration p → Act p (KubeConfig p.foreign)
  limited k cfg = do
    connection ← pointee cfg.client_connection
    pure (record k {
      burst = deref connection.burst p.foreign.default_burst;
      qps = deref connection.qps p.foreign.default_qps;
    })

  unfoldable pub cache_options : Configuration p → Act p (CacheOptions p.Selector)
  cache_options cfg = if app_wrapper_enabled cfg.app_wrapper then pure [] else do
    selector ←
        exit_on_error (lift (p.parse_selector ray_cluster_name_label))
          "unable to parse label selector"
    openshift ← is_openshift p
    pure (cache_by_object selector openshift)

  unfoldable pub manager_options :
      Configuration p → CacheOptions p.Selector → Act p (ManagerOptions p.foreign p.Selector)
  manager_options cfg cache = do
    election ← pointee cfg.controller_manager.leader_election
    pure (record {
      metrics_bind_address = cfg.controller_manager.metrics.bind_address;
      health_probe_bind_address = cfg.controller_manager.health.bind_address;
      leader_election = deref election.leader_elect false;
      leader_election_id = election.resource_name;
      leader_election_namespace = election.resource_namespace;
      leader_election_resource_lock = election.resource_lock;
      lease_duration = election.lease_duration;
      retry_period = election.retry_period;
      renew_deadline = election.renew_deadline;
      cache = cache;
    })

  -- `setupCertManagement`
  unfoldable pub setup_cert_management : p.Manager → String → Act p (Result p.Failure (Unit {0}))
  setup_cert_management m namespace = do
    note (rotates (cert_rotator namespace))
    ask (p.add_rotator m (cert_rotator namespace))

  -- The ingress domain of the cluster.
  unfoldable pub discover_domain : KubeConfig p.foreign → Act p String
  discover_domain kube_config = do
    exit_on_error (lift (p.new_config_client kube_config)) "unable to create Route Client Set"
    found ← get_cluster_domain p
    exit_on_error found ""

  -- The ingress domain: of the configuration, or else of the cluster.
  unfoldable pub with_domain : KubeConfig p.foreign → Configuration p → Act p (Configuration p)
  unfolding discover_domain
  with_domain kube_config cfg = do
    kube_ray ← pointee cfg.kube_ray
    domain ←
        if kube_ray.ingress_domain == ""
        then discover_domain kube_config
        else pure kube_ray.ingress_domain
    pure (record cfg { kube_ray = some (record kube_ray { ingress_domain = domain }) })

  unfoldable pub readiness_after :
      p.Manager → String → Result p.Failure (Unit {0}) → Act p (Result p.Failure (Unit {0}))
  readiness_after m name (err e) = pure (err e)
  readiness_after m name (ok _) = do note (checks_readiness name); ask (p.add_readyz_check m name)

  -- `setupProbeEndpoints`
  unfoldable pub setup_probe_endpoints :
      p.Manager → Configuration p → Act p (Result p.Failure (Unit {0}))
  unfolding readiness_after
  setup_probe_endpoints m cfg = do
    note (checks_health cfg.controller_manager.health.liveness_endpoint_name)
    added ← ask (p.add_healthz_check m cfg.controller_manager.health.liveness_endpoint_name)
    readiness_after m cfg.controller_manager.health.readiness_endpoint_name added

  -- `setupAppWrapperComponents`
  unfoldable pub setup_app_wrapper_components :
      p.Manager → Configuration p → Act p (Result p.Failure (Unit {0}))
  setup_app_wrapper_components m cfg =
      if app_wrapper_enabled cfg.app_wrapper
      then (do
        app_wrapper ← pointee cfg.app_wrapper
        note (spawns_app_wrapper app_wrapper.config)
        ask (p.setup_indexers m app_wrapper.config))
      else pure (ok tt)

  -- The operator's namespace, the client's configuration and the operator's.
  unfoldable pub configure : Host → String → Act p (String × KubeConfig p.foreign × Configuration p)
  unfolding with_user_agent limited
  configure h config_map_name = do
    found ← ask p.get_kube_config
    got ← exit_on_error (lift found) "unable to get client config"
    let kube_config = with_user_agent got
    exit_on_error (lift (p.new_client kube_config)) "unable to create Kubernetes client"
    namespace ← namespace_or_die p h
    loaded ← load_into_or_create p namespace config_map_name (default_configuration p.foreign)
    cfg ← exit_on_error loaded "unable to initialise configuration"
    limits ← limited kube_config cfg
    pure (namespace, limits, cfg)

  unfoldable pub with_certificates : String → p.Manager → Act p p.Manager
  unfolding setup_cert_management
  with_certificates namespace m = do
    rotating ← setup_cert_management m namespace
    exit_on_error (lift rotating) "unable to setup cert-controller"
    pure m

  -- The manager with its certificates.
  unfoldable pub build_manager : String → KubeConfig p.foreign → Configuration p → Act p p.Manager
  unfolding cache_options manager_options with_certificates
  build_manager namespace kube_config cfg = do
    cache ← cache_options cfg
    options ← manager_options cfg cache
    built ← ask (p.new_manager kube_config options)
    m ← exit_on_error (lift built) "unable to create manager"
    with_certificates namespace m

  -- The tasks of the two controllers.
  unfoldable pub spawn_tasks : p.Manager → Configuration p → Act p (Configuration p)
  unfolding setup_app_wrapper_components
  spawn_tasks m cfg = do
    openshift ← is_openshift p
    note (spawns_ray cfg.kube_ray openshift)
    wrapped ← setup_app_wrapper_components m cfg
    exit_on_error (lift wrapped) "unable to setup AppWrapper"
    pure cfg

  -- The domain, the probes and the tasks.
  unfoldable pub set_up :
      p.Manager → KubeConfig p.foreign → Configuration p → Act p (Configuration p)
  unfolding with_domain setup_probe_endpoints spawn_tasks
  set_up m kube_config cfg = do
    cfg' ← with_domain kube_config cfg
    probed ← setup_probe_endpoints m cfg'
    exit_on_error (lift probed) "unable to set up health check"
    spawn_tasks m cfg'

  -- `main`
  unfoldable pub main : Host → String → Act p (Unit {0})
  unfolding configure build_manager set_up
  main h config_map_name = do
    configured ← configure h config_map_name
    m ← build_manager configured.0 configured.1 configured.2
    set_up m configured.1 configured.2
    note starts
    ended ← ask (p.start m)
    exit_on_error (lift ended) "error running manager"
