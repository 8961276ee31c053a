-- ===== src/Startup/Effect.antt =====
-- Steps of main.go: each goes on, exits with a message and an error, or panics. What the operator
-- does that outlasts the call is logged, in its order.
pub mod Triple
use codeflare_operator.Base.{String, Bool, Option, none, some, List, [], ◌∷◌, ◌++◌}
use codeflare_operator.Config.{KubeRayConfiguration}
use codeflare_operator.Controller.Api.{Error, Result, ok, err, api}
use codeflare_operator.Startup.Platform.{Platform, ConfigMap, CertRotator, Kind}

-- `C` is the configuration of the AppWrapper controller.
pub data Deed (C : Type 0) : Type 0 where
  creates : ConfigMap → Deed C
  rotates : CertRotator → Deed C
  checks_health : String → Deed C
  checks_readiness : String → Deed C
  spawns_ray : Option KubeRayConfiguration → (is_openshift : Bool) → Deed C
  spawns_app_wrapper : Option C → Deed C
  starts : Deed C

pub data Step (F : Type 0) (A : Type 0) : Type 0 where
  next : A → Step F A
  exited : Error F → String → Step F A
  panicked : Step F A

pub record World (S C : Type 0) : Type 0 where
  pub server : S
  pub deeds : List (Deed C)

abbrev pub M : (F S C : Type 0) → Type 0 → Type 0
M F S C A = World S C → Step F A × World S C

-- The steps of main.go over one platform.
abbrev pub Act : Platform → Type 0 → Type 0
Act p = M p.Failure p.State p.foreign.AppWrapperConfig

-- The error of a call, as an error of the operator.
abbrev pub lift : {F A : Type 0} → Result F A → Result (Error F) A
lift (ok a) = ok a
lift (err e) = err (api e)

module _ {F S C A B : Type 0} where
  abbrev pub continue : Step F A → (A → M F S C B) → M F S C B
  continue (next a) f w = f a w
  continue (exited e text) f w = (exited e text, w)
  continue panicked f w = (panicked, w)

  infixl 5 ◌>>=◌ ◌>>◌
  unfoldable pub ◌>>=◌ : M F S C A → (A → M F S C B) → M F S C B
  ◌>>=◌ m f w = let (r, w') = m w in continue r f w'

  abbrev pub ◌>>◌ : M F S C A → M F S C B → M F S C B
  m >> n = m >>= λ _. n

module _ {F S C A : Type 0} where
  unfoldable pub pure : A → M F S C A
  pure a w = (next a, w)

  unfoldable pub panic : M F S C A
  panic w = (panicked, w)

  -- A call, with its answer.
  unfoldable pub ask : (S → A × S) → M F S C A
  ask f w = let (a, s) = f w.server in (next a, record w { server = s })

  -- `exitOnError`, with what the call gave.
  unfoldable pub exit_on_error : Result (Error F) A → String → M F S C A
  exit_on_error (ok a) text w = (next a, w)
  exit_on_error (err e) text w = (exited e text, w)

  -- Reading through a pointer that may be nil.
  unfoldable pub pointee : Option A → M F S C A
  pointee none w = (panicked, w)
  pointee (some a) w = (next a, w)

unfoldable pub note : {F S C : Type 0} → Deed C → M F S C (Unit {0})
note d w = (next tt, record w { deeds = w.deeds ++ d ∷ [] })
