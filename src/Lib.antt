-- ===== src/Lib.antt =====
-- codeflare-operator: the RayCluster webhook, the RayCluster controller and the operator's start-up.
--
-- The operator mutates and validates RayClusters on admission (pkg/controllers/raycluster_webhook.go)
-- and reconciles them (pkg/controllers/raycluster_controller.go, with pkg/controllers/support.go):
-- it guards the Ray dashboard by an OAuth proxy, gives each cluster a certificate authority, and
-- applies routes or ingresses and network policies. The webhook puts into a pod what the controller
-- applies: both sides meet in the names of the objects and in the annotation that chooses them. The
-- start-up (main.go) loads the configuration (pkg/config/config.go), builds the manager with its cache,
-- certificates and probes, and spawns the tasks that register the webhook and the controller once the
-- certificates are ready and the RayCluster API is there.
--
-- Which file models what:
-- - Kube: the values of the Kubernetes, KubeRay and OpenShift APIs, as records. A record has the
--   fields that the operator names, and one field for all others.
-- - Config: `KubeRayConfiguration` of pkg/config/config.go. Config.Manager: the rest of that file.
-- - Host: the environment, SHA-256, SHA-1 and base64, as parameters.
-- - Naming: `RCCUniqueName`, `seededHash` and the `...NameFromCluster` functions.
-- - Support: `upsert`, `contains` and the comparisons by name.
-- - Webhook.Parts, Webhook.Default and Webhook.Validate: what the webhook injects, `Default`, and
--   `ValidateCreate`, `ValidateUpdate` and `ValidateDelete`. A run returns or panics. The comparison
--   `DeepDerivative` of apimachinery is a parameter, with its laws in Webhook.Laws.
-- - Controller.Desired and Controller.Policies: the `desired...` functions.
--   Controller.Policies.Reach says which pods a network policy selects and what it
--   admits, after the Kubernetes API.
-- - Controller.Api: the API server and Go's crypto packages, which answer as they like.
-- - Controller.Effect: steps that pass on the server's state, the log of the calls and the calls
--   that did not fail; an early return of the source ends them. The modules below it follow calls
--   and ends through the steps.
-- - Controller.Certificate, Controller.Secrets and Controller.Reconcile: `generateCACertificate`,
--   `deleteHeadPodIfMissingImagePullSecrets` and `Reconcile`, which is cut into its phases.
-- - Controller.Watch: the mapping of watched ClusterRoleBindings of `SetupWithManager`.
-- - Controller.Scope, Controller.Complete, Controller.Endings: which calls a reconciliation makes at
--   most, which at least, and how it ends. Controller.Phases: the clean-up of a cluster that is
--   deleted, call by call. Controller.Authority: the CA secret over two reconciliations.
-- - Startup.Platform: what main.go calls, as parameters. Startup.Effect: steps that go on, exit by
--   `exitOnError` or panic, with a log of what outlasts them; Startup.Effect.Triple has Hoare triples.
-- - Startup.Load: `namespaceOrDie`, `loadIntoOrCreate`, `createConfigMap`. Startup.Discovery:
--   `isOpenShift`, `getClusterDomain`. Startup.Main: `main`, `setupCertManagement`,
--   `setupProbeEndpoints`, `setupAppWrapperComponents`, cut where `main` passes from one to the next.
-- - Startup.Wait: `isAPIAvailable` and the loop of `waitForAPI` over the signals that arrive.
--   Startup.Tasks: the two goroutines, cut into turns that end before the next blocking call or
--   registration, with `SetupRayClusterWebhookWithManager` and `SetupWithManager`.
--   Startup.Tasks.Machine: their interleavings with the end of the certificates' generation, and the
--   function of the readiness check. Startup.Tasks.Service: the abstract service.
-- - Startup.Order, Startup.Reload and Startup.Cached: what is proved of `main`, and of it with the
--   reconciler.
-- - Logging: `logSink` and `FilteredLogger` of pkg/controllers/support.go.
-- - Base: shared helpers. Tests: the theorems at concrete inputs.
--
-- Loops are recursion on the list that they walk; the loop of `waitForAPI` walks the signals that
-- arrive, and says when it still waits after them. The one function on fuel writes an index in
-- decimal (Base.Decimal), with the index and one more as its fuel, which is enough because each
-- round divides by ten. Numbers are natural and no arithmetic of the source can overflow; float32,
-- int32 and durations are only passed on, and are parameters.
--
-- Not modelled: the flags, the scheme and the build information of main.go, the AppWrapper controller
-- (another project's) and what is logged. A turn of a task takes its calls at once, and the manager's
-- own run and its end are one call of `main`. What a slice shares with another is not modelled: no
-- property depends on it.
pub mod Base
pub mod Kube
pub mod Config
pub mod Host
pub mod Naming
pub mod Support
pub mod Webhook
pub mod Controller
pub mod Startup
pub mod Logging
pub mod Tests
