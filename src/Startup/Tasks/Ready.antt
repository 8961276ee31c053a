-- ===== src/Startup/Tasks/Ready.antt =====
-- The readiness check of main.go beside its tasks.
use codeflare_operator.Base.{◌≡◌, refl, sym, ◌∙◌, ap, ◌⊎◌, inl, inr, Bool, true, false, Bool-cases}
use codeflare_operator.Controller.Api.{Result, ok, err, message}
use codeflare_operator.Startup.Effect.{lift}
use codeflare_operator.Startup.Tasks.{
  Plan, RayTask, AppTask, checks, lists, watches, awaits_certs, registers_webhook,
  registers_controller, serves, gave_up, unspawned, awaits, adds_controllers, adds_webhooks, runs,
}
use codeflare_operator.Startup.Tasks.Machine.{Machine, Reach, readiness_check}
use codeflare_operator.Startup.Tasks.Service.{view, service-certified}
use codeflare_operator.Startup.Tasks.Links.{at_ray, at_app, ray_certified, app_certified}
use codeflare_operator.Startup.Tasks.Refines.{Ties, Reach-Ties}

at_ray-certified : (t : RayTask) → ((at_ray t).1 ≡ 0) ⊎ (ray_certified t ≡ true)
at_ray-certified checks = inl refl
at_ray-certified lists = inl refl
at_ray-certified watches = inl refl
at_ray-certified awaits_certs = inl refl
at_ray-certified registers_webhook = inr refl
at_ray-certified registers_controller = inr refl
at_ray-certified serves = inr refl
at_ray-certified gave_up = inl refl

at_app-certified : (t : AppTask) → ((at_app t).0 ≡ 0) ⊎ (app_certified t ≡ true)
at_app-certified unspawned = inl refl
at_app-certified awaits = inl refl
at_app-certified adds_controllers = inr refl
at_app-certified adds_webhooks = inr refl
at_app-certified runs = inr refl

readiness_check-lift :
    {F : Type 0} (started : Result F (Unit {0})) → readiness_check true started ≡ lift started
unfolding readiness_check
readiness_check-lift (ok _) = refl
readiness_check-lift (err e) = refl

module _ {F C : Type 0} (plan : Plan C) {s : Machine F C} (r : Reach plan s) where
  certified_eq : (view s).certified ≡ s.certs_ready
  certified_eq = service-certified s.certs_ready s.milestones

  Certified-cases : (s.certs_ready ≡ true) ⊎ (((view s).guarded ≡ 0) × ((view s).wrapped ≡ 0))
  Certified-cases = elim (at_ray-certified s.ray) [
    | inr e ↦ inl (sym certified_eq ∙ ties.ray_certs e)
    | inl g ↦ elim (at_app-certified s.app) [
      | inr e ↦ inl (sym certified_eq ∙ ties.app_certs e)
      | inl w ↦ inr (ties.guarded ∙ g, ties.wrapped ∙ w)
    ]
  ]
    where
      ties : Ties plan s
      ties = Reach-Ties plan r

  checked :
      (c : Bool) (started : Result F (Unit {0}))
      → c ≡ true
      → readiness_check c started ≡ lift started
  checked c started e = rw e (readiness_check-lift started)

  -- In every state that some interleaving leads to, either the certificates are ready and the
  -- readiness check answers what the webhook server's own check answers; or they are not, the readiness
  -- check fails, and neither the RayCluster webhook nor AppWrapper's controllers are registered.
  pub readiness_check-registered :
      (started : Result F (Unit {0}))
      → ((s.certs_ready ≡ true) × (readiness_check s.certs_ready started ≡ lift started))
        ⊎ ((s.certs_ready ≡ false)
            × ((view s).guarded ≡ 0)
            × ((view s).wrapped ≡ 0)
            × (readiness_check s.certs_ready started ≡ err (message "certificates are not ready")))
  unfolding readiness_check
  readiness_check-registered started = elim (Bool-cases s.certs_ready) [
    | inl e ↦ inl (e, checked s.certs_ready started e)
    | inr f ↦ elim Certified-cases [
      | inl e ↦ absurd (cc (e, f))
      | inr (g, w) ↦ inr (f, g, w, ap (λ c. readiness_check c started) f)
    ]
  ]
