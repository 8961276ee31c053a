-- ===== src/Startup/Tasks/Links.antt =====
-- The abstract service where the two tasks of main.go stand.
use codeflare_operator.Base.{
  ℕ, suc, ◌≡◌, refl, ap, sym, ◌⊎◌, inl, inr, Bool, true, false, Option, none, some, [],
}
use codeflare_operator.Startup.Tasks.{
  Plan, Milestone, RayTask, AppTask, checks, lists, watches, awaits_certs, registers_webhook,
  registers_controller, serves, gave_up, unspawned, awaits, adds_controllers, adds_webhooks, runs,
}
use codeflare_operator.Startup.Tasks.Machine.{first_app}
use codeflare_operator.Startup.Tasks.Flow.{RayFlow, AppFlow}
use codeflare_operator.Startup.Tasks.Service.{
  Service, Advances, finds, guards, reconciles, wraps, admits, service_of, tallied,
}

-- What the service is where the tasks stand.
abbrev pub at_ray : RayTask → ℕ × ℕ × ℕ
at_ray checks = (0, 0, 0)
at_ray lists = (0, 0, 0)
at_ray watches = (0, 0, 0)
at_ray awaits_certs = (1, 0, 0)
at_ray registers_webhook = (1, 0, 0)
at_ray registers_controller = (1, 1, 0)
at_ray serves = (1, 1, 1)
at_ray gave_up = (0, 0, 0)

abbrev pub at_app : AppTask → ℕ × ℕ
at_app unspawned = (0, 0)
at_app awaits = (0, 0)
at_app adds_controllers = (0, 0)
at_app adds_webhooks = (1, 0)
at_app runs = (1, 1)

-- The tasks that are past the certificates.
abbrev pub ray_certified : RayTask → Bool
ray_certified registers_webhook = true
ray_certified registers_controller = true
ray_certified serves = true
ray_certified _ = false

abbrev pub app_certified : AppTask → Bool
app_certified adds_controllers = true
app_certified adds_webhooks = true
app_certified runs = true
app_certified _ = false

pub record Linked (v : Service) (r : RayTask) (t : AppTask) : Type 0 where
  pub found : v.found ≡ (at_ray r).0
  pub guarded : v.guarded ≡ (at_ray r).1
  pub reconciled : v.reconciled ≡ (at_ray r).2
  pub wrapped : v.wrapped ≡ (at_app t).0
  pub admitted : v.admitted ≡ (at_app t).1
  pub ray_certs : ray_certified r ≡ true → v.certified ≡ true
  pub app_certs : app_certified t ≡ true → v.certified ≡ true

module _ {v : Service} {r : RayTask} {t : AppTask} where
  -- The link after a turn of the one or the other task.
  relink :
      {r' : RayTask} {f g n : ℕ}
      → Linked v r t
      → f ≡ (at_ray r').0
      → g ≡ (at_ray r').1
      → n ≡ (at_ray r').2
      → (ray_certified r' ≡ true → v.certified ≡ true)
      → Linked (record v { found = f; guarded = g; reconciled = n }) r' t
  relink l found guarded reconciled certs = record {
    found = found;
    guarded = guarded;
    reconciled = reconciled;
    wrapped = l.wrapped;
    admitted = l.admitted;
    ray_certs = certs;
    app_certs = l.app_certs;
  }

  relink_app :
      {t' : AppTask} {w a : ℕ}
      → Linked v r t
      → w ≡ (at_app t').0
      → a ≡ (at_app t').1
      → (app_certified t' ≡ true → v.certified ≡ true)
      → Linked (record v { wrapped = w; admitted = a }) r t'
  relink_app l wrapped admitted certs = record {
    found = l.found;
    guarded = l.guarded;
    reconciled = l.reconciled;
    wrapped = wrapped;
    admitted = admitted;
    ray_certs = l.ray_certs;
    app_certs = certs;
  }

abbrev pub Follows : Service → Service → Type 0
Follows v v' = (v' ≡ v) ⊎ Advances v v'

-- A turn of the RayCluster task keeps the link, and the service stays or advances.
module _ {C : Type 0} (plan : Plan C) (v : Service) (t : AppTask) where
  pub ray-Linked :
      (c : Bool) (r r' : RayTask) (m : Option (Milestone C))
      → c ≡ v.certified
      → RayFlow plan c r r' m
      → Linked v r t
      → Linked (tallied v m) r' t × Follows v (tallied v m)
  ray-Linked c _ _ _ e RayFlow.listing l =
      (relink l l.found l.guarded l.reconciled l.ray_certs, inl refl)
  ray-Linked c _ _ _ e RayFlow.watching l =
      (relink l l.found l.guarded l.reconciled l.ray_certs, inl refl)
  ray-Linked c _ _ _ e RayFlow.waiting l = (l, inl refl)
  ray-Linked c _ _ _ e RayFlow.cancelling l =
      (relink l l.found l.guarded l.reconciled l.ray_certs, inl refl)
  ray-Linked c _ _ _ e RayFlow.found_at_once l =
      (relink l (ap suc l.found) l.guarded l.reconciled l.ray_certs, inr (finds l.found))
  ray-Linked c _ _ _ e RayFlow.found_in_list l =
      (relink l (ap suc l.found) l.guarded l.reconciled l.ray_certs, inr (finds l.found))
  ray-Linked c _ _ _ e RayFlow.found_in_watch l =
      (relink l (ap suc l.found) l.guarded l.reconciled l.ray_certs, inr (finds l.found))
  ray-Linked _ _ _ _ e RayFlow.blocked l = (l, inl refl)
  ray-Linked _ _ _ _ e RayFlow.unblocked l =
      (relink l l.found l.guarded l.reconciled (λ _. sym e), inl refl)
  ray-Linked c _ _ _ e RayFlow.guarding l = (
    relink l l.found (ap suc l.guarded) l.reconciled l.ray_certs,
    inr (guards (l.ray_certs refl) l.found l.guarded),
  )
  ray-Linked c _ _ _ e (RayFlow.reconciling salt) l = (
    relink l l.found l.guarded (ap suc l.reconciled) l.ray_certs,
    inr (reconciles l.guarded l.reconciled),
  )
  ray-Linked c _ _ _ e RayFlow.serving l = (l, inl refl)
  ray-Linked c _ _ _ e RayFlow.gone l = (l, inl refl)

-- The same for the AppWrapper task.
module _ {C : Type 0} (config : Option C) (v : Service) (r : RayTask) where
  pub app-Linked :
      (c : Bool) (t t' : AppTask) (m : Option (Milestone C))
      → c ≡ v.certified
      → AppFlow config c t t' m
      → Linked v r t
      → Linked (tallied v m) r t' × Follows v (tallied v m)
  app-Linked c _ _ _ e AppFlow.absent l = (l, inl refl)
  app-Linked _ _ _ _ e AppFlow.blocked l = (l, inl refl)
  app-Linked _ _ _ _ e AppFlow.unblocked l =
      (relink_app l l.wrapped l.admitted (λ _. sym e), inl refl)
  app-Linked c _ _ _ e AppFlow.controlling l = (
    relink_app l (ap suc l.wrapped) l.admitted l.app_certs,
    inr (wraps (l.app_certs refl) l.wrapped),
  )
  app-Linked c _ _ _ e AppFlow.admitting l =
      (relink_app l l.wrapped (ap suc l.admitted) l.app_certs, inr (admits l.wrapped l.admitted))
  app-Linked c _ _ _ e AppFlow.running l = (l, inl refl)

module _ {C : Type 0} where
  first_app-fits :
      (o : Option (Option C))
      → (0 ≡ (at_app (first_app o)).0)
        × (0 ≡ (at_app (first_app o)).1)
        × (app_certified (first_app o) ≡ false)
  first_app-fits none = (refl, refl, refl)
  first_app-fits (some config) = (refl, refl, refl)

  pub initial-Linked :
      (plan : Plan C) → Linked (service_of {C = C} false []) checks (first_app plan.app)
  initial-Linked plan = record {
    found = refl;
    guarded = refl;
    reconciled = refl;
    wrapped = (first_app-fits plan.app).0;
    admitted = (first_app-fits plan.app).1;
    ray_certs = λ h. absurd (cc h);
    app_certs = λ h. absurd (cc (h, (first_app-fits plan.app).2));
  }
