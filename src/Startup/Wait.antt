-- ===== src/Startup/Wait.antt =====
-- `isAPIAvailable` and `waitForAPI` of main.go: the watch of custom resource definitions (CRDs), as a
-- loop over the signals that arrive.
pub mod Appears
use codeflare_operator.Base.{
  String, ◌<>◌, Bool, true, false, ◌&&◌, ◌||◌, Option, none, some, List, [], ◌∷◌, ◌==◌,
  if◌then◌else◌,
}
use codeflare_operator.Controller.Api.{Error, Result, ok, err, api}
use codeflare_operator.Startup.Effect.{Step, next, exited, panicked}

-- A CRD: its name, and the type and status of each condition.
pub record Crd : Type 0 where
  pub name : String
  pub conditions : List (String × String)

-- An event of the watch. The object of an addition or a change may be no CRD; `other` stands for the
-- types of events that the loop does not name.
pub data Event (F : Type 0) : Type 0 where
  failed : F → Event F
  added : Option Crd → Event F
  modified : Option Crd → Event F
  other : Event F

-- What the `select` of the loop receives.
pub data Signal (F : Type 0) : Type 0 where
  cancelled : Signal F
  received : Event F → Signal F

-- What a round of the loop leads to.
pub data Verdict : Type 0 where
  waits : Verdict
  leaves : Verdict
  acts : Verdict

-- What the calls for the list of CRDs answer.
pub record Look (F : Type 0) : Type 0 where
  pub client : Result F (Unit {0})
  pub listed : Result F (List Crd)

unfoldable pub is_established : List (String × String) → Bool
is_established [] = false
is_established ((kind, status) ∷ conditions) =
    (kind == "Established" && status == "True") || is_established conditions

unfoldable pub contains_api : String → List Crd → Bool
contains_api name [] = false
contains_api name (crd ∷ crds) = crd.name == name || contains_api name crds

module _ {F : Type 0} where
  -- The exit of `exitOnError`.
  unfoldable pub exit_on : {A : Type 0} → Result F A → String → Step F A
  exit_on (ok a) text = next a
  exit_on (err e) text = exited (api e) text

  abbrev pub after : {A B : Type 0} → Step F A → (A → Step F B) → Step F B
  after (next a) f = f a
  after (exited e text) f = exited e text
  after panicked f = panicked

  -- `isAPIAvailable`, which is also how `waitForAPI` begins.
  unfoldable pub is_api_available : String → Look F → Step F Bool
  unfolding exit_on contains_api
  is_api_available name look = after (exit_on look.client "unable to create CRD client") (λ _.
      after (exit_on look.listed "unable to list CRDs") (λ crds. next (contains_api name crds)))

  unfoldable pub look_at : String → Option Crd → Step F Verdict
  unfolding is_established
  look_at name none = panicked
  look_at name (some crd) =
      next (if crd.name == name && is_established crd.conditions then acts else waits)

  -- One round of the loop.
  unfoldable pub round : String → Signal F → Step F Verdict
  unfolding look_at
  round name cancelled = next leaves
  round name (received (failed e)) = exited (api e) ("error watching for API " <> name)
  round name (received (added o)) = look_at name o
  round name (received (modified o)) = look_at name o
  round name (received other) = next waits

  abbrev pub or_on : Step F Verdict → Step F Verdict → Step F Verdict
  or_on (next waits) rest = rest
  or_on (next leaves) rest = next leaves
  or_on (next acts) rest = next acts
  or_on (exited e text) rest = exited e text
  or_on panicked rest = panicked

  -- The loop over the signals that arrive: `waits` if it still waits after the last.
  unfoldable pub wait_in : String → List (Signal F) → Step F Verdict
  unfolding round
  wait_in name [] = next waits
  wait_in name (s ∷ signals) = or_on (round name s) (wait_in name signals)
