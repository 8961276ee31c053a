-- ===== src/Startup/Tasks/Machine.antt =====
-- The process of main.go after its tasks are spawned: in any order, the certificates become ready and
-- the tasks take turns, until a task ends the process.
use codeflare_operator.Base.{String, Bool, true, false, Option, none, some, List, [], ◌∷◌}
use codeflare_operator.Controller.Api.{Error, Result, ok, err, api, message}
use codeflare_operator.Startup.Effect.{Step, next, exited, panicked}
use codeflare_operator.Startup.Tasks.{
  Plan, Milestone, RayTask, AppTask, Answers, checks, unspawned, awaits, ray_turn, app_turn,
}

-- How the process ends.
pub data Ending (F : Type 0) : Type 0 where
  by_exit : Error F → String → Ending F
  by_panic : Ending F

-- The process, with its milestones, the latest first.
pub record Machine (F C : Type 0) : Type 0 where
  pub certs_ready : Bool
  pub ray : RayTask
  pub app : AppTask
  pub milestones : List (Milestone C)
  pub ending : Option (Ending F)

pub data Move (F : Type 0) : Type 0 where
  closes_certs : Move F
  turns_ray : Answers F → Move F
  turns_app : Answers F → Move F

module _ {C : Type 0} where
  abbrev pub with_milestone : Option (Milestone C) → List (Milestone C) → List (Milestone C)
  with_milestone none ms = ms
  with_milestone (some m) ms = m ∷ ms

  abbrev pub app_config : Option (Option C) → Option C
  app_config none = none
  app_config (some config) = config

  abbrev pub first_app : Option (Option C) → AppTask
  first_app none = unspawned
  first_app (some config) = awaits

module _ {F C : Type 0} where
  abbrev pub settle :
      {T : Type 0}
      → (T → Machine F C → Machine F C)
      → Machine F C
      → Step F (T × Option (Milestone C))
      → Machine F C
  settle put s (next (t, m)) = put t (record s { milestones = with_milestone m s.milestones })
  settle put s (exited e text) = record s { ending = some (by_exit e text) }
  settle put s panicked = record s { ending = some by_panic }

  abbrev pub put_ray : RayTask → Machine F C → Machine F C
  put_ray t s = record s { ray = t }

  abbrev pub put_app : AppTask → Machine F C → Machine F C
  put_app t s = record s { app = t }

  abbrev pub performed : Plan C → Move F → Machine F C → Machine F C
  performed plan closes_certs s = record s { certs_ready = true }
  performed plan (turns_ray a) s = settle put_ray s (ray_turn plan a s.certs_ready s.ray)
  performed plan (turns_app a) s =
      settle put_app s (app_turn (app_config plan.app) a s.certs_ready s.app)

  abbrev pub unless_ended : Option (Ending F) → Machine F C → Machine F C → Machine F C
  unless_ended none t s = t
  unless_ended (some e) t s = s

  -- A move, unless the process has ended.
  unfoldable pub perform : Plan C → Move F → Machine F C → Machine F C
  perform plan m s = unless_ended s.ending (performed plan m s) s

  unfoldable pub run : Plan C → List (Move F) → Machine F C → Machine F C
  unfolding perform
  run plan [] s = s
  run plan (m ∷ ms) s = run plan ms (perform plan m s)

  -- After `main` has spawned the tasks.
  abbrev pub initial : Plan C → Machine F C
  initial plan = record {
    certs_ready = false;
    ray = checks;
    app = first_app plan.app;
    milestones = [];
    ending = none;
  }

  -- The states that some interleaving leads to.
  pub data Reach (plan : Plan C) : Machine F C → Type 0 where
    start : Reach plan (initial plan)
    later : {s : Machine F C} → Reach plan s → (m : Move F) → Reach plan (perform plan m s)

-- The readiness check of `setupProbeEndpoints`, with what the webhook server's own check answers.
unfoldable pub readiness_check :
    {F : Type 0} → (certs_ready : Bool) → Result F (Unit {0}) → Result (Error F) (Unit {0})
readiness_check true (ok _) = ok tt
readiness_check true (err e) = err (api e)
readiness_check false started = err (message "certificates are not ready")
