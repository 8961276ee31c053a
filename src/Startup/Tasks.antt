-- ===== src/Startup/Tasks.antt =====
-- The tasks that main.go spawns, which run beside the manager: `waitForRayClusterAPIandSetupController`
-- with `setupRayClusterController`, and `setupAppWrapperControllerAndWebhooks`. A turn of a task goes
-- up to its next call; turns of both tasks and the end of the certificates' generation interleave.
-- `SetupRayClusterWebhookWithManager` of pkg/controllers/raycluster_webhook.go and `SetupWithManager`
-- of pkg/controllers/raycluster_controller.go are calls of them.
pub mod Machine
pub mod Flow
pub mod Service
pub mod Links
pub mod Refines
pub mod Favours
pub mod Live
pub mod Ready
use codeflare_operator.Base.{
  ◌≡◌, String, Bool, true, false, Option, none, some, List, [], ◌∷◌, if◌then◌else◌,
}
use codeflare_operator.Host.{Host}
use codeflare_operator.Config.{KubeRayConfiguration}
use codeflare_operator.Controller.Api.{Error, Result, ok, err, api, message}
use codeflare_operator.Controller.Reconcile.{Reconciler}
use codeflare_operator.Webhook.Default.{RayClusterWebhook}
use codeflare_operator.Startup.Platform.{
  Kind, secrets, services, service_accounts, ingresses, network_policies, cluster_role_bindings,
  routes,
}
use codeflare_operator.Startup.Effect.{Step, next, exited, panicked}
use codeflare_operator.Startup.Wait.{
  Signal, Verdict, Look, waits, leaves, acts, after, exit_on, is_api_available, round,
}

-- What the tasks are spawned with. `app` is `some` if the AppWrapper task is spawned.
pub record Plan (C : Type 0) : Type 0 where
  pub host : Host
  pub kube_ray : Option KubeRayConfiguration
  pub is_openshift : Bool
  pub operator_version : String
  pub app : Option (Option C)

-- What the tasks reach: the API is found, and what they register with the manager.
pub data Milestone (C : Type 0) : Type 0 where
  found_api : Milestone C
  ray_webhook : RayClusterWebhook → Milestone C
  ray_controller : Reconciler → (watched : List Kind) → Milestone C
  app_controllers : Option C → Milestone C
  app_webhooks : Option C → Milestone C

-- Where the RayCluster task stands: before the check, before the list of `waitForAPI`, in its loop,
-- before `<-certsReady`, before each registration, after them, and after the loop was cancelled.
pub data RayTask : Type 0 where
  checks : RayTask
  lists : RayTask
  watches : RayTask
  awaits_certs : RayTask
  registers_webhook : RayTask
  registers_controller : RayTask
  serves : RayTask
  gave_up : RayTask

-- Where the AppWrapper task stands.
pub data AppTask : Type 0 where
  unspawned : AppTask
  awaits : AppTask
  adds_controllers : AppTask
  adds_webhooks : AppTask
  runs : AppTask

-- What the calls of a turn answer, whichever the turn makes.
pub record Answers (F : Type 0) : Type 0 where
  pub look : Look F
  pub watcher : Result F (Unit {0})
  pub signal : Signal F
  pub webhook : Result F (Unit {0})
  pub clients : Bool
  pub salt : Result F String
  pub complete : Result F (Unit {0})
  pub controllers : Result F (Unit {0})
  pub webhooks : Result F (Unit {0})

abbrev pub raycluster_api : String
raycluster_api = "rayclusters.ray.io"

-- The kinds, apart from RayClusters, whose changes lead to a reconciliation.
unfoldable pub watched_kinds : Bool → List Kind
watched_kinds is_openshift =
    service_accounts
    ∷ services
    ∷ secrets
    ∷ ingresses
    ∷ network_policies
    ∷ cluster_role_bindings
    ∷ (if is_openshift then routes ∷ [] else [])

module _ {F C : Type 0} where
  -- `SetupRayClusterWebhookWithManager`
  unfoldable pub setup_webhook : Plan C → Answers F → Result F (Milestone C)
  setup_webhook plan a = elim a.webhook [
    | ok _ ↦
        ok (
          ray_webhook (record { config = plan.kube_ray; operator_version = plan.operator_version }))
    | err e ↦ err e
  ]

  -- The last part of `SetupWithManager`, given the salt.
  unfoldable pub complete_with : Plan C → Answers F → Result F String → Result F (Milestone C)
  complete_with plan a (err e) = err e
  complete_with plan a (ok salt) = elim a.complete [
    | ok _ ↦ ok (
        ray_controller
          (record {
            host = plan.host;
            cookie_salt = salt;
            config = plan.kube_ray;
            is_openshift = plan.is_openshift;
          })
          (watched_kinds plan.is_openshift))
    | err e ↦ err e
  ]

  -- `SetupWithManager` of a new reconciler; `NewForConfigOrDie` panics.
  unfoldable pub setup_controller : Plan C → Answers F → Step F (Result F (Milestone C))
  unfolding complete_with
  setup_controller plan a = if a.clients then next (complete_with plan a a.salt) else panicked

  abbrev pub reach :
      {T : Type 0} → String → T → Result F (Milestone C) → Step F (T × Option (Milestone C))
  reach text t (ok m) = next (t, some m)
  reach text t (err e) = exited (api e) text

  -- `waitForAPI` up to its loop.
  abbrev pub begin_wait : Answers F → Step F (RayTask × Option (Milestone C))
  begin_wait a = after (is_api_available raycluster_api a.look) (λ found.
      if found
      then next (awaits_certs, some found_api)
      else after (exit_on a.watcher "unable to create retry watcher") (λ _. next (watches, none)))

  -- A turn of the RayCluster task.
  unfoldable pub ray_turn :
      Plan C → Answers F → (certs_ready : Bool) → RayTask → Step F (RayTask × Option (Milestone C))
  unfolding is_api_available exit_on round setup_webhook setup_controller
  ray_turn plan a certs_ready checks =
      after (is_api_available raycluster_api a.look)
        (λ found. next (if found then (awaits_certs, some found_api) else (lists, none)))
  ray_turn plan a certs_ready lists = begin_wait a
  ray_turn plan a certs_ready watches = after (round raycluster_api a.signal) (λ verdict.
      next (elim verdict [
        | waits ↦ (watches, none)
        | leaves ↦ (gave_up, none)
        | acts ↦ (awaits_certs, some found_api)
      ]))
  ray_turn plan a certs_ready awaits_certs =
      next (if certs_ready then registers_webhook else awaits_certs, none)
  ray_turn plan a certs_ready registers_webhook =
      reach "unable to setup RayCluster controller" registers_controller (setup_webhook plan a)
  ray_turn plan a certs_ready registers_controller =
      after (setup_controller plan a) (reach "unable to setup RayCluster controller" serves)
  ray_turn plan a certs_ready serves = next (serves, none)
  ray_turn plan a certs_ready gave_up = next (gave_up, none)

  -- A call of the AppWrapper controller's set-up.
  abbrev pub app_call :
      AppTask
      → Option C
      → (Option C → Milestone C)
      → String
      → Result F (Unit {0})
      → Step F (AppTask × Option (Milestone C))
  app_call t config milestone text (ok _) = next (t, some (milestone config))
  app_call t config milestone text (err e) = exited (api e) text

  -- A turn of the AppWrapper task.
  unfoldable pub app_turn :
      Option C
      → Answers F
      → (certs_ready : Bool) → AppTask
      → Step F (AppTask × Option (Milestone C))
  app_turn config a certs_ready unspawned = next (unspawned, none)
  app_turn config a certs_ready awaits =
      next (if certs_ready then adds_controllers else awaits, none)
  app_turn config a certs_ready adds_controllers =
      app_call adds_webhooks config app_controllers "unable to setup AppWrapper controller"
        a.controllers
  app_turn config a certs_ready adds_webhooks =
      app_call runs config app_webhooks "unable to setup AppWrapper webhooks" a.webhooks
  app_turn config a certs_ready runs = next (runs, none)
