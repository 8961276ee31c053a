-- ===== src/Startup/Tasks/Refines.antt =====
-- The process of main.go refines the abstract service.
use codeflare_operator.Base.{◌≡◌, refl, sym, ◌⊎◌, inl, inr, true, Option, none, some}
use codeflare_operator.Startup.Effect.{Step, next, exited, panicked}
use codeflare_operator.Startup.Effect.Triple.{Goes}
use codeflare_operator.Startup.Tasks.{Plan, Milestone, RayTask, AppTask}
use codeflare_operator.Startup.Tasks.Machine.{
  Machine, Move, closes_certs, turns_ray, turns_app, Reach, start, later, perform, performed,
  settle, put_ray, put_app, app_config, Ending, unless_ended,
}
use codeflare_operator.Startup.Tasks.Flow.{RayFlow, AppFlow, ray_turn-Flows, app_turn-AppFlows}
use codeflare_operator.Startup.Tasks.Service.{
  Advances, certifies, view, service-certified, service-certify, service-with_milestone,
}
use codeflare_operator.Startup.Tasks.Links.{Linked, ray-Linked, app-Linked, initial-Linked, Follows}

module _ {F C : Type 0} (plan : Plan C) where
  abbrev pub Ties : Machine F C → Type 0
  Ties s = Linked (view s) s.ray s.app

  abbrev Kept : Machine F C → Machine F C → Type 0
  Kept s t = Ties t × Follows (view s) (view t)

  settled_ray :
      (s : Machine F C) (x : Step F (RayTask × Option (Milestone C)))
      → Goes x (λ y. RayFlow plan s.certs_ready s.ray y.0 y.1)
      → Ties s
      → Kept s (settle put_ray s x)
  settled_ray s (next (t, m)) f l = rw (service-with_milestone s.certs_ready m s.milestones) (
      ray-Linked plan (view s) s.app s.certs_ready s.ray t m
        (sym (service-certified s.certs_ready s.milestones)) f l)
  settled_ray s (exited e text) f l = (l, inl refl)
  settled_ray s panicked f l = (l, inl refl)

  settled_app :
      (config : Option C) (s : Machine F C) (x : Step F (AppTask × Option (Milestone C)))
      → Goes x (λ y. AppFlow config s.certs_ready s.app y.0 y.1)
      → Ties s
      → Kept s (settle put_app s x)
  settled_app config s (next (t, m)) f l =
      rw (service-with_milestone s.certs_ready m s.milestones) (
        app-Linked config (view s) s.ray s.certs_ready s.app t m
          (sym (service-certified s.certs_ready s.milestones)) f l)
  settled_app config s (exited e text) f l = (l, inl refl)
  settled_app config s panicked f l = (l, inl refl)

  performed-Kept : (m : Move F) (s : Machine F C) → Ties s → Kept s (performed plan m s)
  performed-Kept closes_certs s l =
      rw (service-certify s.certs_ready s.milestones) (certified_link l, inr certifies)
    where
      certified_link : Ties s → Linked (record (view s) { certified = true }) s.ray s.app
      certified_link l = record {
        found = l.found;
        guarded = l.guarded;
        reconciled = l.reconciled;
        wrapped = l.wrapped;
        admitted = l.admitted;
        ray_certs = λ _. refl;
        app_certs = λ _. refl;
      }
  performed-Kept (turns_ray a) s l = settled_ray s _ (ray_turn-Flows plan a s.certs_ready s.ray) l
  performed-Kept (turns_app a) s l =
      settled_app (app_config plan.app) s _ (app_turn-AppFlows _ a s.certs_ready s.app) l

  unless_ended-Kept :
      (e : Option (Ending F)) (s t : Machine F C) → Ties s → Kept s t → Kept s (unless_ended e t s)
  unless_ended-Kept none s t l k = k
  unless_ended-Kept (some e) s t l k = (l, inl refl)

  perform-Kept : (m : Move F) (s : Machine F C) → Ties s → Kept s (perform plan m s)
  unfolding perform
  perform-Kept m s l = unless_ended-Kept s.ending s _ l (performed-Kept m s l)

  pub Reach-Ties : {s : Machine F C} → Reach plan s → Ties s
  Reach-Ties start = initial-Linked plan
  Reach-Ties (later {s} r m) = (perform-Kept m s (Reach-Ties r)).0

  -- In every state that some interleaving leads to, any move leaves the abstract service as it is or
  -- is one of its steps: the certificates become ready, the API is found once, the RayCluster webhook
  -- is registered once, after both, its controller once, after the webhook, AppWrapper's controllers
  -- once, after the certificates, and its webhooks once, after its controllers.
  pub perform-Advances :
      {s : Machine F C} (m : Move F)
      → Reach plan s
      → (view (perform plan m s) ≡ view s) ⊎ Advances (view s) (view (perform plan m s))
  perform-Advances {s} m r = (perform-Kept m s (Reach-Ties r)).1
