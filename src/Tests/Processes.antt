-- ===== src/Tests/Processes.antt =====
-- The tasks of the start-up, with calls that succeed and a RayCluster API that is there.
use codeflare_operator.Base.{
  ◌≡◌, ◌↔◌, refl, Bool, true, false, some, none, List, [], ◌∷◌, ◌⊎◌, arith,
}
use mathlib.Core.List.{Memᴰ}
use codeflare_operator.Controller.Api.{ok, err, message}
use codeflare_operator.Startup.Effect.{next, lift}
use codeflare_operator.Startup.Wait.{
  Crd, added, modified, other, received, acts, wait_in, contains_api, is_api_available, exit_on,
  round, look_at, is_established,
}
use codeflare_operator.Startup.Wait.Appears.{Appears, IsReady, by_change, wait_in-acts_iff}
use codeflare_operator.Startup.Tasks.{
  Plan, Answers, found_api, raycluster_api, ray_turn, app_turn, setup_webhook, setup_controller,
  complete_with,
}
use codeflare_operator.Startup.Tasks.Flow.{ray_webhook_of, ray_controller_of}
use codeflare_operator.Startup.Tasks.Machine.{
  Machine, Move, closes_certs, turns_ray, turns_app, Reach, start, later, initial, perform, run,
  readiness_check,
}
use codeflare_operator.Startup.Tasks.Service.{view, Advances}
use codeflare_operator.Startup.Tasks.Refines.{perform-Advances}
use codeflare_operator.Startup.Tasks.Favours.{Favours, IsFavoured, ray_turns}
use codeflare_operator.Startup.Tasks.Live.{run-registers}
use codeflare_operator.Startup.Tasks.Ready.{readiness_check-registered}
use codeflare_operator.Tests.Data.{host, configuration}

abbrev ray_crd : Crd
ray_crd = record {
  name = "rayclusters.ray.io";
  conditions = ("NamesAccepted", "True") ∷ ("Established", "True") ∷ [];
}

abbrev pods_crd : Crd
pods_crd = record { name = "pods"; conditions = [] }

abbrev answers : Answers Bool
answers = record {
  look = record { client = ok tt; listed = ok (pods_crd ∷ ray_crd ∷ []) };
  watcher = ok tt;
  signal = received (modified (some ray_crd));
  webhook = ok tt;
  clients = true;
  salt = ok "salt";
  complete = ok tt;
  controllers = ok tt;
  webhooks = ok tt;
}

ray_crd-IsReady : IsReady raycluster_api ray_crd
ray_crd-IsReady = (refl, Memᴰ.tail (Memᴰ.head refl))

answers-Favours : Favours answers
unfolding contains_api
answers-Favours = record {
  crds = pods_crd ∷ ray_crd ∷ [];
  salt = "salt";
  client = refl;
  listed = refl;
  there = refl;
  told = by_change ray_crd-IsReady;
  webhook = refl;
  clients = refl;
  salted = refl;
  complete = refl;
  controllers = refl;
  webhooks = refl;
}

abbrev plan : Plan (Unit {0})
plan = record {
  host = host;
  kube_ray = some configuration;
  is_openshift = true;
  operator_version = "v1";
  app = some none;
}

abbrev early : Machine Bool (Unit {0})
early = initial plan

abbrev certified : Machine Bool (Unit {0})
certified = perform plan closes_certs early

abbrev ray_moves : List (Move Bool)
ray_moves =
    turns_ray answers
    ∷ turns_ray answers
    ∷ turns_app answers
    ∷ turns_ray answers
    ∷ turns_ray answers
    ∷ []

certified-Reach : Reach plan certified
certified-Reach = later start closes_certs

run_test :
    (run plan ray_moves certified).milestones
    ≡ ray_controller_of plan "salt" ∷ ray_webhook_of plan ∷ found_api ∷ []
unfolding run perform ray_turn app_turn setup_webhook setup_controller complete_with
    is_api_available exit_on contains_api
run_test = refl

wait_in-acts_iff_example :
    (wait_in {F = Bool} raycluster_api (
        received other ∷ received (added (some pods_crd)) ∷ received (modified (some ray_crd)) ∷ [])
      ≡ next acts)
    ↔ Appears {F = Bool} raycluster_api (
        received other ∷ received (added (some pods_crd)) ∷ received (modified (some ray_crd)) ∷ [])
wait_in-acts_iff_example = wait_in-acts_iff raycluster_api _

wait_test :
    wait_in {F = Bool} raycluster_api
      (received other ∷ received (added (some pods_crd)) ∷ received (modified (some ray_crd)) ∷ [])
    ≡ next acts
unfolding wait_in round look_at is_established
wait_test = refl

perform-Advances_example :
    (view (perform plan (turns_ray answers) certified) ≡ view certified)
    ⊎ Advances (view certified) (view (perform plan (turns_ray answers) certified))
perform-Advances_example = perform-Advances plan (turns_ray answers) certified-Reach

run-registers_example :
    ((run plan ray_moves certified).ending ≡ none)
    × ((view (run plan ray_moves certified)).guarded ≡ 1)
    × ((view (run plan ray_moves certified)).reconciled ≡ 1)
unfolding perform IsFavoured ray_turns
run-registers_example =
    run-registers plan ray_moves certified-Reach refl refl (λ e. cc e)
      (
        answers-Favours,
        (answers-Favours, (answers-Favours, (answers-Favours, (answers-Favours, tt)))),
      )
      (omega arith)

readiness_check-registered_example :
    ((certified.certs_ready ≡ true)
      × (readiness_check {F = Bool} certified.certs_ready (err true) ≡ lift (err true)))
    ⊎ ((certified.certs_ready ≡ false)
        × ((view certified).guarded ≡ 0)
        × ((view certified).wrapped ≡ 0)
        × (readiness_check {F = Bool} certified.certs_ready (err true)
            ≡ err (message "certificates are not ready")))
readiness_check-registered_example = readiness_check-registered plan certified-Reach (err true)
