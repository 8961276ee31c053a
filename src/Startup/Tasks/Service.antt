-- ===== src/Startup/Tasks/Service.antt =====
-- An abstract service beside the process of main.go: what is registered with the manager, how often, and
-- after what.
use codeflare_operator.Base.{ℕ, suc, ◌≡◌, refl, ap, Bool, true, Option, none, some, List, [], ◌∷◌}
use codeflare_operator.Startup.Tasks.{
  Milestone, found_api, ray_webhook, ray_controller, app_controllers, app_webhooks,
}
use codeflare_operator.Startup.Tasks.Machine.{Machine, with_milestone}

-- The abstract service: whether there are certificates, and how often the API was found, the
-- RayCluster webhook and controller were registered, and those of AppWrapper were.
pub record Service : Type 0 where
  pub certified : Bool
  pub found : ℕ
  pub guarded : ℕ
  pub reconciled : ℕ
  pub wrapped : ℕ
  pub admitted : ℕ

-- What may happen to it: each thing once, and in this order.
pub data Advances : Service → Service → Type 0 where
  certifies : {s : Service} → Advances s (record s { certified = true })
  finds : {s : Service} → s.found ≡ 0 → Advances s (record s { found = suc s.found })
  guards :
      {s : Service}
      → s.certified ≡ true
      → s.found ≡ 1
      → s.guarded ≡ 0
      → Advances s (record s { guarded = suc s.guarded })
  reconciles :
      {s : Service}
      → s.guarded ≡ 1
      → s.reconciled ≡ 0
      → Advances s (record s { reconciled = suc s.reconciled })
  wraps :
      {s : Service}
      → s.certified ≡ true
      → s.wrapped ≡ 0
      → Advances s (record s { wrapped = suc s.wrapped })
  admits :
      {s : Service}
      → s.wrapped ≡ 1
      → s.admitted ≡ 0
      → Advances s (record s { admitted = suc s.admitted })

-- What a milestone adds.
abbrev pub tally : {C : Type 0} → Service → Milestone C → Service
tally v found_api = record v { found = suc v.found }
tally v (ray_webhook w) = record v { guarded = suc v.guarded }
tally v (ray_controller r watched) = record v { reconciled = suc v.reconciled }
tally v (app_controllers config) = record v { wrapped = suc v.wrapped }
tally v (app_webhooks config) = record v { admitted = suc v.admitted }

abbrev pub service_of : {C : Type 0} → Bool → List (Milestone C) → Service
service_of c [] = record {
  certified = c;
  found = 0;
  guarded = 0;
  reconciled = 0;
  wrapped = 0;
  admitted = 0;
}
service_of c (m ∷ ms) = tally (service_of c ms) m

abbrev pub view : {F C : Type 0} → Machine F C → Service
view s = service_of s.certs_ready s.milestones

abbrev pub tallied : {C : Type 0} → Service → Option (Milestone C) → Service
tallied v none = v
tallied v (some m) = tally v m

module _ {C : Type 0} (c : Bool) where
  pub service-certified : (ms : List (Milestone C)) → (service_of c ms).certified ≡ c
  service-certified [] = refl
  service-certified (found_api ∷ ms) = service-certified ms
  service-certified (ray_webhook w ∷ ms) = service-certified ms
  service-certified (ray_controller r watched ∷ ms) = service-certified ms
  service-certified (app_controllers config ∷ ms) = service-certified ms
  service-certified (app_webhooks config ∷ ms) = service-certified ms

  pub service-certify :
      (ms : List (Milestone C)) → service_of true ms ≡ record (service_of c ms) { certified = true }
  service-certify [] = refl
  service-certify (found_api ∷ ms) = ap (λ v. tally {C = C} v found_api) (service-certify ms)
  service-certify (ray_webhook w ∷ ms) =
      ap (λ v. tally {C = C} v (ray_webhook w)) (service-certify ms)
  service-certify (ray_controller r watched ∷ ms) =
      ap (λ v. tally {C = C} v (ray_controller r watched)) (service-certify ms)
  service-certify (app_controllers config ∷ ms) =
      ap (λ v. tally v (app_controllers config)) (service-certify ms)
  service-certify (app_webhooks config ∷ ms) =
      ap (λ v. tally v (app_webhooks config)) (service-certify ms)

  pub service-with_milestone :
      (m : Option (Milestone C)) (ms : List (Milestone C))
      → service_of c (with_milestone m ms) ≡ tallied (service_of c ms) m
  service-with_milestone none ms = refl
  service-with_milestone (some m) ms = refl
