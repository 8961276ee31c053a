-- ===== src/Startup/Order.antt =====
-- The order in which main.go sets the operator up: what is set up so far, read off the log of deeds, and
-- steps that lead from one progress to another.
pub mod Build
pub mod Domain
pub mod Sound
pub mod Served
use codeflare_operator.Base.{
  ◌≡◌, refl, sym, ap, Bool, true, false, not, ◌&&◌, Option, none, some, String, ◌==◌, List, [], ◌∷◌,
  arith, if◌then◌else◌,
}
use codeflare_operator.Host.{Host}
use codeflare_operator.Config.{KubeRayConfiguration}
use codeflare_operator.Controller.Api.{Error, Result, ok, err, api, message, wrapped}
use codeflare_operator.Startup.Platform.{Platform, KubeConfig, ConfigMap}
use codeflare_operator.Startup.Effect.{
  Deed, World, M, Act, lift, creates, rotates, checks_health, checks_readiness, spawns_ray,
  spawns_app_wrapper, starts, ◌>>=◌, pure, panic, ask, exit_on_error, pointee, note,
}
use codeflare_operator.Startup.Effect.Triple.{
  Monitor, scan, Triple, Triple-pure, Triple-panic, Triple-ask, Triple-exit_on_error,
  Triple-pointee, Triple-given, Triple-if, Triple-weaken, Triple-exit_of, Triple-note, Triple-bind,
}

-- What is set up so far, and whether each deed came after those that it needs.
pub record Progress : Type 0 where
  pub rotating : Bool
  pub healthy : Bool
  pub ready : Bool
  pub spawned : Bool
  pub sound : Bool

abbrev pub has_domain : Option KubeRayConfiguration → Bool
has_domain none = false
has_domain (some k) = not (k.ingress_domain == "")

abbrev pub advance : {C : Type 0} → Progress → Deed C → Progress
advance s (creates m) = record s { sound = s.sound && not s.rotating }
advance s (rotates r) = record s { rotating = true }
advance s (checks_health name) = record s { healthy = true }
advance s (checks_readiness name) = record s { ready = true }
advance s (spawns_ray k openshift) = record s {
  spawned = true;
  sound = s.sound && s.rotating && s.healthy && s.ready && has_domain k;
}
advance s (spawns_app_wrapper c) = record s { sound = s.sound && s.rotating && s.ready }
advance s starts = record s { sound = s.sound && s.spawned }

abbrev pub fresh : Progress
fresh = record { rotating = false; healthy = false; ready = false; spawned = false; sound = true }

abbrev pub rotated : Progress
rotated = record fresh { rotating = true }

abbrev pub probed : Progress
probed = record rotated { healthy = true; ready = true }

abbrev pub spawned : Progress
spawned = record probed { spawned = true }

abbrev pub order : (C : Type 0) → Monitor C
order C = record { Progress = Progress; advance = advance; Sound = λ s. s.sound ≡ true }

abbrev pub Is : Progress → Progress → Type 0
Is s t = t ≡ s

-- From one progress to another, whatever the step gives.
pub record Moves {F S C A : Type 0} (s t : Progress) (m : M F S C A) : Type 0 where
  pub triple : Triple (order C) fresh (Is s) m (λ _. Is t)

module _ {F S C A : Type 0} {s : Progress} where
  pub Moves-pure : (x : A) → Moves s s (pure {F = F} {S = S} {C = C} x)
  Moves-pure x = record { triple = Triple-pure (order C) fresh x _ (λ t i. i) }

  pub Moves-panic : {t : Progress} → Moves s t (panic {F = F} {S = S} {C = C} {A = A})
  Moves-panic = record { triple = Triple-panic (order C) fresh _ }

  pub Moves-ask : (f : S → A × S) → Moves s s (ask {F = F} {S = S} {C = C} f)
  Moves-ask f = record { triple = Triple-ask (order C) fresh f }

  pub Moves-exit_on_error :
      (r : Result (Error F) A) (text : String)
      → Moves s s (exit_on_error {F = F} {S = S} {C = C} r text)
  Moves-exit_on_error r text = record { triple = Triple-exit_on_error (order C) fresh r text }

  pub Moves-pointee : (x : Option A) → Moves s s (pointee {F = F} {S = S} {C = C} x)
  Moves-pointee x = record { triple = Triple-pointee (order C) fresh x }

  pub Moves-if :
      {t : Progress} (b : Bool) (m n : M F S C A)
      → Moves s t m
      → Moves s t n
      → Moves s t (if b then m else n)
  Moves-if true m n km kn = km
  Moves-if false m n km kn = kn

pub Moves-note :
    {F S C : Type 0} {s : Progress} (d : Deed C)
    → (advance s d).sound ≡ true
    → Moves s (advance s d) (note {F = F} {S = S} {C = C} d)
Moves-note {C} {s} d sound = record {
  triple = Triple-note (order C) fresh d _ (λ t k i. rw i (sound, refl));
}

pub Moves-bind :
    {F S C A B : Type 0} {s t u : Progress} (m : M F S C A) (f : A → M F S C B)
    → Moves s t m
    → ((x : A) → Moves t u (f x))
    → Moves s u (m >>= f)
Moves-bind {C} m f km kf = record {
  triple = Triple-bind (order C) fresh m f _ km.triple (λ x. (kf x).triple);
}

-- The task of the RayCluster controller, given a domain.
pub Moves-spawn :
    {F S C : Type 0} (k : Option KubeRayConfiguration) (openshift : Bool)
    → has_domain k ≡ true
    → Moves probed spawned (note {F = F} {S = S} {C = C} (spawns_ray k openshift))
Moves-spawn k openshift domain = record {
  triple = Triple-note _ fresh _ _ (λ t sound i. rw (i, domain) (refl, refl));
}

-- The same after a step that keeps the progress.
pub Moves-bind_same :
    {F S C A B : Type 0} {s u : Progress} (m : M F S C A) (f : A → M F S C B)
    → Moves s s m
    → ((x : A) → Moves s u (f x))
    → Moves s u (m >>= f)
Moves-bind_same = Moves-bind

pub ruleset moves_rules = (
  Moves-pure, Moves-panic, Moves-ask, Moves-exit_on_error, Moves-pointee, Moves-if, Moves-note,
  Moves-bind_same,
)
