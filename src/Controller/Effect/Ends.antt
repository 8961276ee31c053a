-- ===== src/Controller/Effect/Ends.antt =====
-- How an action ends: one rule for each way to build an action.
use codeflare_operator.Base.{◌≡◌, ◌⊎◌, Bool, true, false, if◌then◌else◌, none, some}
use codeflare_operator.Base.Run.{Run, returns, panics}
use codeflare_operator.Controller.Api.{Result, Error}
use codeflare_operator.Controller.Effect.{
  M, World, Step, Outcome, next, done, panicked, Call, continue, ◌>>=◌, pure, stop, run, call,
  outside,
}

-- A reconciliation ends without an error and without a time to come back, or with an error.
abbrev pub IsClean : {F : Type 0} → Outcome F → Type 0
IsClean {F} o = ((o.error ≡ none) × (o.requeue_after ≡ 0)) ⊎ ((e : Error F) × (o.error ≡ some e))

abbrev pub IsCleanStep : {F A : Type 0} → Step F A → Type 0
IsCleanStep (next x) = Unit
IsCleanStep (done o) = IsClean o
IsCleanStep panicked = ⊥

-- From any world, the action goes on or ends cleanly; it does not panic.
pub record StaysClean {F S A : Type 0} (m : M F S A) : Type 0 where
  pub at : (w : World S) → IsCleanStep (m w).0

module _ {F S A : Type 0} where
  pub StaysClean-pure : (x : A) → StaysClean (pure {F = F} {S = S} x)
  unfolding pure
  StaysClean-pure x = record { at = λ w. tt }

  pub StaysClean-stop : (o : Outcome F) → IsClean o → StaysClean (stop {F = F} {S = S} {A = A} o)
  unfolding stop
  StaysClean-stop o clean = record { at = λ w. clean }

  pub StaysClean-outside : (f : S → A × S) → StaysClean (outside {F = F} f)
  unfolding outside
  StaysClean-outside f = record { at = λ w. tt }

  pub StaysClean-call : (c : Call) (f : S → Result F A × S) → StaysClean (call c f)
  unfolding call
  StaysClean-call c f = record { at = λ w. tt }

  pub StaysClean-if :
      (b : Bool) (m n : M F S A) → StaysClean m → StaysClean n → StaysClean (if b then m else n)
  StaysClean-if true m n km kn = km
  StaysClean-if false m n km kn = kn

module _ {F S A B : Type 0} where
  later :
      (r : Step F A) (f : A → M F S B)
      → IsCleanStep r
      → ((x : A) → StaysClean (f x))
      → StaysClean (continue r f)
  later (next x) f clean kf = kf x
  later (done o) f clean kf = record { at = λ w. clean }
  later panicked f clean kf = absurd clean

  pub StaysClean-bind :
      (m : M F S A) (f : A → M F S B)
      → StaysClean m
      → ((x : A) → StaysClean (f x))
      → StaysClean (m >>= f)
  unfolding ◌>>=◌
  StaysClean-bind m f km kf = record { at = λ w. (later (m w).0 f (km.at w) kf).at (m w).1 }

-- The end of a whole reconciliation, which neither goes on nor panics.
abbrev pub IsCleanEnd : {F A : Type 0} → Step F A → Type 0
IsCleanEnd (next x) = ⊥
IsCleanEnd (done o) = IsClean o
IsCleanEnd panicked = ⊥

-- From any world, the action ends, and cleanly.
pub record Concludes {F S A : Type 0} (m : M F S A) : Type 0 where
  pub at : (w : World S) → IsCleanEnd (m w).0

pub Concludes-stop :
    {F S A : Type 0} (o : Outcome F) → IsClean o → Concludes (stop {F = F} {S = S} {A = A} o)
unfolding stop
Concludes-stop o clean = record { at = λ w. clean }

module _ {F S A B : Type 0} where
  concluded :
      (r : Step F A) (f : A → M F S B)
      → IsCleanStep r
      → ((x : A) → Concludes (f x))
      → Concludes (continue r f)
  concluded (next x) f clean kf = kf x
  concluded (done o) f clean kf = record { at = λ w. clean }
  concluded panicked f clean kf = absurd clean

  pub Concludes-bind :
      (m : M F S A) (f : A → M F S B)
      → StaysClean m
      → ((x : A) → Concludes (f x))
      → Concludes (m >>= f)
  unfolding ◌>>=◌
  Concludes-bind m f km kf = record { at = λ w. (concluded (m w).0 f (km.at w) kf).at (m w).1 }

-- A computation that returns.
pub StaysClean-run :
    {F S A : Type 0} (x : Run A) (y : A) → x ≡ returns y → StaysClean (run {F = F} {S = S} x)
unfolding run
StaysClean-run (returns x) y e = record { at = λ w. tt }
StaysClean-run panics y e = cc

pub ruleset ends_rules = (
  StaysClean-pure, StaysClean-stop, StaysClean-outside, StaysClean-call, StaysClean-if,
  StaysClean-bind,
)
