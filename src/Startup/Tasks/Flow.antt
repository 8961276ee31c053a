-- ===== src/Startup/Tasks/Flow.antt =====
-- The flow of the two tasks of main.go, whatever their calls answer.
use codeflare_operator.Base.{
  ◌≡◌, refl, ◌⊎◌, inl, inr, String, Bool, true, false, Option, none, some, if◌then◌else◌,
  Bool-cases,
}
use codeflare_operator.Controller.Api.{Result, ok, err}
use codeflare_operator.Startup.Effect.{Step, next, exited, panicked}
use codeflare_operator.Startup.Effect.Triple.{Goes}
use codeflare_operator.Startup.Wait.{
  Verdict, waits, leaves, acts, after, exit_on, is_api_available, round,
}
use codeflare_operator.Startup.Tasks.{
  Plan, Milestone, RayTask, AppTask, Answers, checks, lists, watches, awaits_certs,
  registers_webhook, registers_controller, serves, gave_up, unspawned, awaits, adds_controllers,
  adds_webhooks, runs, found_api, ray_webhook, ray_controller, app_controllers, app_webhooks,
  ray_turn, app_turn, watched_kinds, setup_webhook, setup_controller, complete_with, reach,
  app_call, raycluster_api,
}

module _ {C : Type 0} (plan : Plan C) where
  abbrev pub ray_webhook_of : Milestone C
  ray_webhook_of =
      ray_webhook (record { config = plan.kube_ray; operator_version = plan.operator_version })

  abbrev pub ray_controller_of : String → Milestone C
  ray_controller_of salt =
      ray_controller
        (record {
          host = plan.host;
          cookie_salt = salt;
          config = plan.kube_ray;
          is_openshift = plan.is_openshift;
        })
        (watched_kinds plan.is_openshift)

  -- From where to where a turn of the RayCluster task leads, with which milestone.
  pub data RayFlow : Bool → RayTask → RayTask → Option (Milestone C) → Type 0 where
    listing : {c : Bool} → RayFlow c checks lists none
    watching : {c : Bool} → RayFlow c lists watches none
    waiting : {c : Bool} → RayFlow c watches watches none
    cancelling : {c : Bool} → RayFlow c watches gave_up none
    found_at_once : {c : Bool} → RayFlow c checks awaits_certs (some found_api)
    found_in_list : {c : Bool} → RayFlow c lists awaits_certs (some found_api)
    found_in_watch : {c : Bool} → RayFlow c watches awaits_certs (some found_api)
    blocked : RayFlow false awaits_certs awaits_certs none
    unblocked : RayFlow true awaits_certs registers_webhook none
    guarding : {c : Bool} → RayFlow c registers_webhook registers_controller (some ray_webhook_of)
    reconciling :
        {c : Bool} (salt : String)
        → RayFlow c registers_controller serves (some (ray_controller_of salt))
    serving : {c : Bool} → RayFlow c serves serves none
    gone : {c : Bool} → RayFlow c gave_up gave_up none

module _ {C : Type 0} (config : Option C) where
  -- The same for the AppWrapper task.
  pub data AppFlow : Bool → AppTask → AppTask → Option (Milestone C) → Type 0 where
    absent : {c : Bool} → AppFlow c unspawned unspawned none
    blocked : AppFlow false awaits awaits none
    unblocked : AppFlow true awaits adds_controllers none
    controlling :
        {c : Bool} → AppFlow c adds_controllers adds_webhooks (some (app_controllers config))
    admitting : {c : Bool} → AppFlow c adds_webhooks runs (some (app_webhooks config))
    running : {c : Bool} → AppFlow c runs runs none

module _ {F A B : Type 0} where
  -- A step after one that goes on or not.
  pub Goes-after :
      (r : Step F A) (f : A → Step F B) (Q : B → Type 0)
      → ((x : A) → Goes (f x) Q)
      → Goes (after r f) Q
  Goes-after (next x) f Q k = k x
  Goes-after (exited e text) f Q k = tt
  Goes-after panicked f Q k = tt

module _ {F C : Type 0} (plan : Plan C) (a : Answers F) where
  abbrev pub Flows : Bool → RayTask → (RayTask × Option (Milestone C)) → Type 0
  Flows c t x = RayFlow plan c t x.0 x.1

  setup_webhook-cases :
      (setup_webhook plan a ≡ ok (ray_webhook_of plan)) ⊎ ((e : F) × (setup_webhook plan a ≡ err e))
  unfolding setup_webhook
  setup_webhook-cases = from a.webhook refl
    where
      from :
          (r : Result F (Unit {0}))
          → a.webhook ≡ r
          → (setup_webhook plan a ≡ ok (ray_webhook_of plan))
            ⊎ ((e : F) × (setup_webhook plan a ≡ err e))
      from (ok _) e = inl (rw e refl)
      from (err f) e = inr (f, rw e refl)

  complete_with-Flows :
      (c : Bool) (text : String) (salt : Result F String)
      → Goes (reach text serves (complete_with plan a salt)) (Flows c registers_controller)
  unfolding complete_with
  complete_with-Flows c text (err e) = tt
  complete_with-Flows c text (ok salt) = from a.complete
    where
      from :
          (r : Result F (Unit {0}))
          → Goes
              (reach text serves
                (elim r [ ok _ ↦ ok (ray_controller_of plan salt) | err e ↦ err e ]))
              (Flows c registers_controller)
      from (ok _) = reconciling salt
      from (err e) = tt

  verdict-Flows :
      (c : Bool) (v : Verdict)
      → Flows c watches (elim v [
        | waits ↦ (watches, none)
        | leaves ↦ (gave_up, none)
        | acts ↦ (awaits_certs, some found_api)
      ])
  verdict-Flows c waits = waiting
  verdict-Flows c leaves = cancelling
  verdict-Flows c acts = found_in_watch

  checked-Flows :
      (c found : Bool)
      → Flows c checks (if found then (awaits_certs, some found_api) else (lists, none))
  checked-Flows c true = found_at_once
  checked-Flows c false = listing

  listed-Flows :
      (c found : Bool)
      → Goes
          (if found
            then next (awaits_certs, some found_api)
            else after
                (exit_on a.watcher "unable to create retry watcher")
                (λ _. next (watches, none)))
          (Flows c lists)
  listed-Flows c true = found_in_list
  listed-Flows c false = Goes-after (exit_on a.watcher _) _ _ (λ _. watching)

  -- A turn of the RayCluster task follows the flow.
  pub ray_turn-Flows : (c : Bool) (t : RayTask) → Goes (ray_turn plan a c t) (Flows c t)
  unfolding ray_turn setup_controller
  ray_turn-Flows c checks =
      Goes-after (is_api_available raycluster_api a.look) _ _ (checked-Flows c)
  ray_turn-Flows c lists = Goes-after (is_api_available raycluster_api a.look) _ _ (listed-Flows c)
  ray_turn-Flows c watches = Goes-after (round raycluster_api a.signal) _ _ (verdict-Flows c)
  ray_turn-Flows true awaits_certs = unblocked
  ray_turn-Flows false awaits_certs = blocked
  ray_turn-Flows c registers_webhook = elim setup_webhook-cases [
    | inl e ↦ rw e guarding
    | inr (f, e) ↦ rw e tt
  ]
  ray_turn-Flows c registers_controller = elim (Bool-cases a.clients) [
    | inl e ↦ rw e (complete_with-Flows c _ a.salt)
    | inr e ↦ rw e tt
  ]
  ray_turn-Flows c serves = serving
  ray_turn-Flows c gave_up = gone

module _ {F C : Type 0} (config : Option C) (a : Answers F) where
  abbrev pub AppFlows : Bool → AppTask → (AppTask × Option (Milestone C)) → Type 0
  AppFlows c t x = AppFlow config c t x.0 x.1

  controlled :
      (c : Bool) (r : Result F (Unit {0})) (text : String)
      → Goes (app_call adds_webhooks config app_controllers text r) (AppFlows c adds_controllers)
  controlled c (ok _) text = controlling
  controlled c (err e) text = tt

  admitted :
      (c : Bool) (r : Result F (Unit {0})) (text : String)
      → Goes (app_call runs config app_webhooks text r) (AppFlows c adds_webhooks)
  admitted c (ok _) text = admitting
  admitted c (err e) text = tt

  -- A turn of the AppWrapper task follows the flow.
  pub app_turn-AppFlows : (c : Bool) (t : AppTask) → Goes (app_turn config a c t) (AppFlows c t)
  unfolding app_turn
  app_turn-AppFlows c unspawned = absent
  app_turn-AppFlows true awaits = unblocked
  app_turn-AppFlows false awaits = blocked
  app_turn-AppFlows c adds_controllers = controlled c a.controllers _
  app_turn-AppFlows c adds_webhooks = admitted c a.webhooks _
  app_turn-AppFlows c runs = running
