-- ===== src/Controller/Effect/Raises.antt =====
-- Actions that end early only with an error: one rule for each way to build an action.
use codeflare_operator.Base.{◌≡◌, refl, Bool, true, false, none, some, if◌then◌else◌}
use codeflare_operator.Base.Run.{Run, returns, panics}
use codeflare_operator.Controller.Api.{Result, Error}
use codeflare_operator.Controller.Effect.{
  M, World, Step, Outcome, next, done, panicked, Call, continue, ◌>>=◌, pure, stop, call, outside,
  run,
}

-- The reconciliation ended without an error.
unfoldable pub ended_well : {F A : Type 0} → Step F A → Bool
ended_well (next x) = false
ended_well (done o) = elim o.error [ none ↦ true | some e ↦ false ]
ended_well panicked = false

-- From no world does the action end without an error; it may go on.
pub record Raises {F S A : Type 0} (m : M F S A) : Type 0 where
  pub at : (w : World S) → ended_well (m w).0 ≡ false

module _ {F S A : Type 0} where
  pub Raises-pure : (x : A) → Raises (pure {F = F} {S = S} x)
  unfolding pure ended_well
  Raises-pure x = record { at = λ w. refl }

  pub Raises-stop :
      (o : Outcome F) (e : Error F) → o.error ≡ some e → Raises (stop {F = F} {S = S} {A = A} o)
  unfolding stop ended_well
  Raises-stop o e there = record { at = λ w. rw there refl }

  pub Raises-call : (c : Call) (f : S → Result F A × S) → Raises (call c f)
  unfolding call ended_well
  Raises-call c f = record { at = λ w. refl }

  pub Raises-outside : (f : S → A × S) → Raises (outside {F = F} f)
  unfolding outside ended_well
  Raises-outside f = record { at = λ w. refl }

  pub Raises-run : (x : Run A) → Raises (run {F = F} {S = S} x)
  unfolding run ended_well
  Raises-run (returns y) = record { at = λ w. refl }
  Raises-run panics = record { at = λ w. refl }

  pub Raises-if : (b : Bool) (m n : M F S A) → Raises m → Raises n → Raises (if b then m else n)
  Raises-if true m n km kn = km
  Raises-if false m n km kn = kn

module _ {F S A B : Type 0} where
  later :
      (r : Step F A) (f : A → M F S B)
      → ended_well r ≡ false
      → ((x : A) → Raises (f x))
      → Raises (continue r f)
  unfolding ended_well
  later (next x) f raised kf = kf x
  later (done o) f raised kf = record { at = λ w. raised }
  later panicked f raised kf = record { at = λ w. refl }

  pub Raises-bind :
      (m : M F S A) (f : A → M F S B) → Raises m → ((x : A) → Raises (f x)) → Raises (m >>= f)
  unfolding ◌>>=◌
  Raises-bind m f km kf = record { at = λ w. (later (m w).0 f (km.at w) kf).at (m w).1 }

pub ruleset raises_rules =
    (Raises-pure, Raises-stop, Raises-call, Raises-outside, Raises-run, Raises-if, Raises-bind)
