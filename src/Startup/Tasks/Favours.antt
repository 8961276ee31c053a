-- ===== src/Startup/Tasks/Favours.antt =====
-- Turns of the tasks of main.go while the RayCluster API is there and no call fails.
use codeflare_operator.Base.{
  ℕ, suc, ◌-◌, ◌≤◌, ◌≡◌, refl, ◌≢◌, String, true, Option, none, some, List, [], ◌∷◌, arith,
}
use codeflare_operator.Controller.Api.{ok}
use codeflare_operator.Startup.Effect.{next}
use codeflare_operator.Startup.Wait.{Crd, contains_api, is_api_available, exit_on}
use codeflare_operator.Startup.Wait.Appears.{Tells, round-acts_iff}
use codeflare_operator.Startup.Tasks.{
  Plan, Milestone, RayTask, AppTask, Answers, checks, lists, watches, awaits_certs,
  registers_webhook, registers_controller, serves, gave_up, unspawned, awaits, adds_controllers,
  adds_webhooks, runs, found_api, ray_turn, app_turn, raycluster_api, setup_webhook,
  setup_controller, complete_with, app_controllers, app_webhooks,
}
use codeflare_operator.Startup.Tasks.Flow.{ray_webhook_of, ray_controller_of}
use codeflare_operator.Startup.Tasks.Machine.{Move, closes_certs, turns_ray, turns_app}

-- The list of the CRDs has the API, the signal tells of it, and no call fails.
pub record Favours {F : Type 0} (a : Answers F) : Type 0 where
  pub crds : List Crd
  pub salt : String
  pub client : a.look.client ≡ ok tt
  pub listed : a.look.listed ≡ ok crds
  pub there : contains_api raycluster_api crds ≡ true
  pub told : Tells raycluster_api a.signal
  pub webhook : a.webhook ≡ ok tt
  pub clients : a.clients ≡ true
  pub salted : a.salt ≡ ok salt
  pub complete : a.complete ≡ ok tt
  pub controllers : a.controllers ≡ ok tt
  pub webhooks : a.webhooks ≡ ok tt

unfoldable pub IsFavoured : {F : Type 0} → Move F → Type 0
IsFavoured closes_certs = Unit
IsFavoured (turns_ray a) = Favours a
IsFavoured (turns_app a) = Favours a

-- How often the RayCluster task takes its turn.
unfoldable pub ray_turns : {F : Type 0} → List (Move F) → ℕ
ray_turns [] = 0
ray_turns (closes_certs ∷ ms) = ray_turns ms
ray_turns (turns_ray a ∷ ms) = suc (ray_turns ms)
ray_turns (turns_app a ∷ ms) = ray_turns ms

-- The turns left.
abbrev pub rank : RayTask → ℕ
rank checks = 4
rank lists = 4
rank watches = 4
rank awaits_certs = 3
rank registers_webhook = 2
rank registers_controller = 1
rank serves = 0
rank gave_up = 0

pub rank-le : (t : RayTask) → rank t ≤ 4
rank-le checks = omega arith
rank-le lists = omega arith
rank-le watches = omega arith
rank-le awaits_certs = omega arith
rank-le registers_webhook = omega arith
rank-le registers_controller = omega arith
rank-le serves = omega arith
rank-le gave_up = omega arith

-- Where the next turn leads.
abbrev pub ahead : RayTask → RayTask
ahead checks = awaits_certs
ahead lists = awaits_certs
ahead watches = awaits_certs
ahead awaits_certs = registers_webhook
ahead registers_webhook = registers_controller
ahead registers_controller = serves
ahead serves = serves
ahead gave_up = gave_up

pub rank-ahead : (t : RayTask) → rank (ahead t) ≡ rank t - 1
rank-ahead checks = refl
rank-ahead lists = refl
rank-ahead watches = refl
rank-ahead awaits_certs = refl
rank-ahead registers_webhook = refl
rank-ahead registers_controller = refl
rank-ahead serves = refl
rank-ahead gave_up = refl

pub ahead-ne : (t : RayTask) → t ≢ gave_up → ahead t ≢ gave_up
ahead-ne checks n e = cc e
ahead-ne lists n e = cc e
ahead-ne watches n e = cc e
ahead-ne awaits_certs n e = cc e
ahead-ne registers_webhook n e = cc e
ahead-ne registers_controller n e = cc e
ahead-ne serves n e = cc e
ahead-ne gave_up n e = n refl

pub serves-of-rank : (t : RayTask) → t ≢ gave_up → rank t ≡ 0 → t ≡ serves
serves-of-rank checks n e = absurd (omega (arith, e))
serves-of-rank lists n e = absurd (omega (arith, e))
serves-of-rank watches n e = absurd (omega (arith, e))
serves-of-rank awaits_certs n e = absurd (omega (arith, e))
serves-of-rank registers_webhook n e = absurd (omega (arith, e))
serves-of-rank registers_controller n e = absurd (omega (arith, e))
serves-of-rank serves n e = refl
serves-of-rank gave_up n e = absurd (n refl)

module _ {F C : Type 0} (plan : Plan C) (a : Answers F) (f : Favours a) where
  is_api_available-favoured : is_api_available raycluster_api a.look ≡ next true
  unfolding is_api_available exit_on
  is_api_available-favoured = rw (f.client, f.listed, f.there) refl

  pub ray_turn-ahead :
      (t : RayTask) → (m : Option (Milestone C)) × (ray_turn plan a true t ≡ next (ahead t, m))
  unfolding ray_turn setup_webhook setup_controller complete_with
  ray_turn-ahead checks = (some found_api, rw is_api_available-favoured refl)
  ray_turn-ahead lists = (some found_api, rw is_api_available-favoured refl)
  ray_turn-ahead watches =
      (some found_api, rw ((round-acts_iff raycluster_api a.signal).1 f.told) refl)
  ray_turn-ahead awaits_certs = (none, refl)
  ray_turn-ahead registers_webhook = (some (ray_webhook_of plan), rw f.webhook refl)
  ray_turn-ahead registers_controller =
      (some (ray_controller_of plan f.salt), rw (f.clients, f.salted, f.complete) refl)
  ray_turn-ahead serves = (none, refl)
  ray_turn-ahead gave_up = (none, refl)

  pub app_turn-goes_on :
      (config : Option C) (t : AppTask)
      → (t' : AppTask) × (m : Option (Milestone C)) × (app_turn config a true t ≡ next (t', m))
  unfolding app_turn
  app_turn-goes_on config unspawned = (unspawned, none, refl)
  app_turn-goes_on config awaits = (adds_controllers, none, refl)
  app_turn-goes_on config adds_controllers =
      (adds_webhooks, some (app_controllers config), rw f.controllers refl)
  app_turn-goes_on config adds_webhooks = (runs, some (app_webhooks config), rw f.webhooks refl)
  app_turn-goes_on config runs = (runs, none, refl)
