-- ===== src/Startup/Tasks/Live.antt =====
-- Once the certificates are ready and no call fails any more, the RayCluster webhook and controller of
-- main.go get registered.
use codeflare_operator.Base.{
  ◌≤◌, ◌≡◌, refl, sym, ◌∙◌, ap, ◌≢◌, Bool, true, Option, none, some, List, [], ◌∷◌, arith,
}
use mathlib.Core.Path.{subst}
use codeflare_operator.Base.Lists.{All}
use codeflare_operator.Startup.Effect.{Step, next}
use codeflare_operator.Startup.Tasks.{Plan, Milestone, RayTask, serves, gave_up, ray_turn, app_turn}
use codeflare_operator.Startup.Tasks.Machine.{
  Machine, Move, closes_certs, turns_ray, turns_app, Reach, later, perform, run, app_config, settle,
  put_ray, put_app, Ending, unless_ended,
}
use codeflare_operator.Startup.Tasks.Service.{view}
use codeflare_operator.Startup.Tasks.Links.{at_ray}
use codeflare_operator.Startup.Tasks.Refines.{Reach-Ties}
use codeflare_operator.Startup.Tasks.Favours.{
  IsFavoured, ray_turns, rank, rank-le, ahead, rank-ahead, ahead-ne, serves-of-rank, ray_turn-ahead,
  app_turn-goes_on,
}

-- Running on, with the certificates ready.
record GoesOn {F C : Type 0} (s : Machine F C) : Type 0 where
  running : s.ending ≡ none
  certified : s.certs_ready ≡ true

module _ {F C : Type 0} (plan : Plan C) where
  -- What a favoured move leads to.
  record Moved (t : Machine F C) (r : RayTask) : Type 0 where
    goes_on : GoesOn t
    ray : t.ray ≡ r

  unless_ended-none :
      (e : Option (Ending F)) (t s : Machine F C) → e ≡ none → unless_ended e t s ≡ t
  unless_ended-none none t s h = refl
  unless_ended-none (some x) t s h = absurd (cc h)

  turn_of :
      {T : Type 0} (put : T → Machine F C → Machine F C) (s : Machine F C)
      (turn : Bool → Step F (T × Option (Milestone C))) (y : T × Option (Milestone C))
      → GoesOn s
      → turn true ≡ next y
      → unless_ended s.ending (settle put s (turn s.certs_ready)) s ≡ settle put s (next y)
  turn_of put s turn y g e =
      unless_ended-none s.ending _ s g.running
      ∙ ap (λ c. settle put s (turn c)) g.certified
      ∙ ap (settle put s) e

  abbrev next_ray : Move F → RayTask → RayTask
  next_ray (turns_ray a) t = ahead t
  next_ray _ t = t

  perform-Moved :
      (m : Move F) (s : Machine F C)
      → IsFavoured m
      → GoesOn s
      → Moved (perform plan m s) (next_ray m s.ray)
  unfolding perform IsFavoured
  perform-Moved closes_certs s f g =
      subst (λ t. Moved t s.ray) (sym (unless_ended-none s.ending _ s g.running))
        (record { goes_on = record { running = g.running; certified = refl }; ray = refl })
  perform-Moved (turns_ray a) s f g =
      let (m, e) = ray_turn-ahead plan a f s.ray in
      subst (λ t. Moved t (ahead s.ray))
        (sym (turn_of put_ray s (λ c. ray_turn plan a c s.ray) (ahead s.ray, m) g e))
        (record { goes_on = record { running = g.running; certified = g.certified }; ray = refl })
  perform-Moved (turns_app a) s f g =
      let (t', m, e) = app_turn-goes_on plan a f (app_config plan.app) s.app in
      subst (λ t. Moved t s.ray)
        (sym (turn_of put_app s (λ c. app_turn (app_config plan.app) a c s.app) (t', m) g e))
        (record { goes_on = record { running = g.running; certified = g.certified }; ray = refl })

  serves_in_time :
      (ms : List (Move F)) (s : Machine F C)
      → All IsFavoured ms
      → GoesOn s
      → s.ray ≢ gave_up
      → rank s.ray ≤ ray_turns ms
      → Moved (run plan ms s) serves
  unfolding run ray_turns
  serves_in_time [] s f g n h = record {
    goes_on = g;
    ray = serves-of-rank s.ray n (omega (arith, h));
  }
  serves_in_time (m ∷ ms) s f g n h =
      let moved = perform-Moved m s f.0 g in
      serves_in_time ms (perform plan m s) f.1 moved.goes_on (still m moved.ray)
        (less m moved.ray h)
    where
      still :
          (m : Move F)
          → (perform plan m s).ray ≡ next_ray m s.ray
          → (perform plan m s).ray ≢ gave_up
      still closes_certs e = λ x. n (sym e ∙ x)
      still (turns_ray a) e = λ x. ahead-ne s.ray n (sym e ∙ x)
      still (turns_app a) e = λ x. n (sym e ∙ x)

      less :
          (m : Move F)
          → (perform plan m s).ray ≡ next_ray m s.ray
          → rank s.ray ≤ ray_turns (m ∷ ms)
          → rank (perform plan m s).ray ≤ ray_turns ms
      less closes_certs e k = rw e k
      less (turns_ray a) e k = rw (e, rank-ahead s.ray) (omega (arith, k))
      less (turns_app a) e k = rw e k

  Reach-run : (ms : List (Move F)) (s : Machine F C) → Reach plan s → Reach plan (run plan ms s)
  unfolding run
  Reach-run [] s r = r
  Reach-run (m ∷ ms) s r = Reach-run ms (perform plan m s) (later r m)

  -- From any state that some interleaving leads to, in which the process runs, the certificates are
  -- ready and the wait for the API was not cancelled: moves in any order in which the RayCluster task
  -- takes at least four turns, where in every turn of the tasks the list of the CRDs has the API, the
  -- signal tells of the API and no call fails, leave the process running with the RayCluster webhook
  -- and the RayCluster controller registered, each once.
  pub run-registers :
      {s : Machine F C} (ms : List (Move F))
      → Reach plan s
      → s.ending ≡ none
      → s.certs_ready ≡ true
      → s.ray ≢ gave_up
      → All IsFavoured ms
      → 4 ≤ ray_turns ms
      → ((run plan ms s).ending ≡ none)
        × ((view (run plan ms s)).guarded ≡ 1)
        × ((view (run plan ms s)).reconciled ≡ 1)
  run-registers {s} ms r running certified n f h =
      let moved =
        serves_in_time ms s f (record { running = running; certified = certified }) n
          (omega (arith, h, rank-le s.ray)) in
      let ties = Reach-Ties plan (Reach-run ms s r) in
      (
        moved.goes_on.running,
        ties.guarded ∙ ap (λ t. (at_ray t).1) moved.ray,
        ties.reconciled ∙ ap (λ t. (at_ray t).2) moved.ray,
      )
