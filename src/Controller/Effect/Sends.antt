-- ===== src/Controller/Effect/Sends.antt =====
-- Actions that make a certain call unless they end with an error: one rule for each way to build an
-- action.
use codeflare_operator.Base.{
  ◌≡◌, refl, sym, ◌⊎◌, inl, inr, Bool, true, false, Option, none, some, List, [], ◌∷◌,
  if◌then◌else◌,
}
use mathlib.Core.Path.{subst}
use mathlib.Core.List.{Memᴰ}
use mathlib.Core.List.Memᴰ.{append_left, append_right}
use codeflare_operator.Base.Run.{Run, returns, panics}
use codeflare_operator.Controller.Api.{Result, Error}
use codeflare_operator.Controller.Effect.{
  M, World, Step, Outcome, next, done, panicked, Call, continue, ◌>>=◌, pure, stop, run, call,
}
use codeflare_operator.Controller.Effect.Only.{Only, Memᴰ-noted}
use codeflare_operator.Controller.Effect.Raises.{ended_well, Raises}

-- Which calls count: all, or those that the server has not failed.
pub data Journal : Type 0 where
  asked : Journal
  answered : Journal

abbrev pub entries : {S : Type 0} → Journal → World S → List Call
entries asked w = w.log
entries answered w = w.accepted

-- A call of the journal that is as wanted.
abbrev pub Found : {S : Type 0} → Journal → (Call → Type 0) → World S → Type 0
Found j Q w = (x : Call) × Q x × Memᴰ x (entries j w)

-- The step ended with an error or panicked, or the wanted call is in the journal.
abbrev pub Sent : {F S A : Type 0} → Journal → (Call → Type 0) → Step F A → World S → Type 0
Sent j Q (next x) w = Found j Q w
Sent {F} j Q (done o) w = ((e : Error F) × (o.error ≡ some e)) ⊎ Found j Q w
Sent j Q panicked w = Unit

-- From any world, both journals keep their calls.
pub record Grows {F S A : Type 0} (m : M F S A) : Type 0 where
  pub kept :
      (j : Journal) (w : World S) (x : Call) → Memᴰ x (entries j w) → Memᴰ x (entries j (m w).1)

-- From any world, the wanted call is made unless the action ends with an error.
pub record Sends {F S A : Type 0} (j : Journal) (Q : Call → Type 0) (m : M F S A) : Type 0 where
  pub at : (w : World S) → Sent j Q (m w).0 (m w).1

Sent-of_Found :
    {F S A : Type 0} (j : Journal) (Q : Call → Type 0) (r : Step F A) (w : World S)
    → Found j Q w
    → Sent j Q r w
Sent-of_Found j Q (next x) w f = f
Sent-of_Found j Q (done o) w f = inr f
Sent-of_Found j Q panicked w f = tt

module _ {F S A : Type 0} where
  pub Grows-of_Only : {P : Call → Type 0} {m : M F S A} → Only P m → Grows m
  Grows-of_Only {m} k = record { kept = grown }
    where
      grown :
          (j : Journal) (w : World S) (x : Call) → Memᴰ x (entries j w) → Memᴰ x (entries j (m w).1)
      grown asked w x h = subst (Memᴰ x) (sym (k.log_eq w)) (append_left (k.calls w) h)
      grown answered w x h = k.stays w x h

  pub Grows-pure : (x : A) → Grows (pure {F = F} {S = S} x)
  unfolding pure
  Grows-pure x = record { kept = λ j w y h. h }

  pub Grows-stop : (o : Outcome F) → Grows (stop {F = F} {S = S} {A = A} o)
  unfolding stop
  Grows-stop o = record { kept = λ j w y h. h }

  pub Grows-call : (c : Call) (f : S → Result F A × S) → Grows (call c f)
  unfolding call
  Grows-call c f = record { kept = grown }
    where
      grown :
          (j : Journal) (w : World S) (x : Call)
          → Memᴰ x (entries j w)
          → Memᴰ x (entries j (call c f w).1)
      grown asked w x h = append_left (c ∷ []) h
      grown answered w x h = Memᴰ-noted (f w.server).0 c h

  pub Grows-run : (x : Run A) → Grows (run {F = F} {S = S} x)
  unfolding run
  Grows-run (returns y) = record { kept = λ j w z h. h }
  Grows-run panics = record { kept = λ j w z h. h }

  pub Sends-call :
      {Q : Call → Type 0} (c : Call) (f : S → Result F A × S) → Q c → Sends asked Q (call c f)
  unfolding call
  Sends-call c f q = record { at = λ w. (c, q, append_right w.log (Memᴰ.head refl)) }

module _ {F S A : Type 0} {j : Journal} {Q : Call → Type 0} where
  pub Sends-stop :
      (o : Outcome F) (e : Error F) → o.error ≡ some e → Sends j Q (stop {F = F} {S = S} {A = A} o)
  unfolding stop
  Sends-stop o e there = record { at = λ w. inl (e, there) }

  pub Sends-if :
      (b : Bool) (m n : M F S A) → Sends j Q m → Sends j Q n → Sends j Q (if b then m else n)
  Sends-if true m n km kn = km
  Sends-if false m n km kn = kn

  pub Sends-if_true :
      (b : Bool) (m n : M F S A) → b ≡ true → Sends j Q m → Sends j Q (if b then m else n)
  Sends-if_true true m n e km = km
  Sends-if_true false m n e km = absurd (cc e)

  pub Sends-if_false :
      (b : Bool) (m n : M F S A) → b ≡ false → Sends j Q n → Sends j Q (if b then m else n)
  Sends-if_false true m n e kn = absurd (cc e)
  Sends-if_false false m n e kn = kn

module _ {F : Type 0} where
  error_of :
      (x : Option (Error F))
      → elim x [ none ↦ true | some e ↦ false ] ≡ false
      → (e : Error F) × (x ≡ some e)
  error_of none h = absurd (cc h)
  error_of (some e) h = (e, refl)

  done-raised :
      (A : Type 0) (o : Outcome F)
      → ended_well {F = F} {A = A} (done o) ≡ false
      → (e : Error F) × (o.error ≡ some e)
  unfolding ended_well
  done-raised A o h = error_of o.error h

module _ {F S A B : Type 0} (m : M F S A) (f : A → M F S B) where
  pub Grows-bind : Grows m → ((x : A) → Grows (f x)) → Grows (m >>= f)
  unfolding ◌>>=◌
  Grows-bind km kf = record { kept = λ j w y h. grown j (m w).0 (m w).1 y (km.kept j w y h) }
    where
      grown :
          (j : Journal) (r : Step F A) (w : World S) (y : Call)
          → Memᴰ y (entries j w)
          → Memᴰ y (entries j (continue r f w).1)
      grown j (next x) w y h = (kf x).kept j w y h
      grown j (done o) w y h = h
      grown j panicked w y h = h

  -- The call is made at once.
  pub Sends-now :
      {j : Journal} {Q : Call → Type 0}
      → Sends j Q m
      → ((x : A) → Grows (f x))
      → Sends j Q (m >>= f)
  unfolding ◌>>=◌
  Sends-now {j} {Q} km kf = record { at = λ w. sent (m w).0 (m w).1 (km.at w) }
    where
      sent :
          (r : Step F A) (w : World S)
          → Sent j Q r w
          → Sent j Q (continue r f w).0 (continue r f w).1
      sent (next x) w (y, q, h) = Sent-of_Found j Q _ _ (y, q, (kf x).kept j w y h)
      sent (done o) w s = s
      sent panicked w s = tt

  -- The call is made later, after an action that ends early only with an error.
  pub Sends-later :
      {j : Journal} {Q : Call → Type 0}
      → Raises m
      → ((x : A) → Sends j Q (f x))
      → Sends j Q (m >>= f)
  unfolding ◌>>=◌
  Sends-later {j} {Q} km kf = record { at = λ w. sent (m w).0 (m w).1 (km.at w) }
    where
      sent :
          (r : Step F A) (w : World S)
          → ended_well r ≡ false
          → Sent j Q (continue r f w).0 (continue r f w).1
      sent (next x) w h = (kf x).at w
      sent (done o) w h = inl (done-raised A o h)
      sent panicked w h = tt

-- After a computation that may panic.
pub Sends-bind_run :
    {F S A B : Type 0} {j : Journal} {Q : Call → Type 0} (x : Run A) (f : A → M F S B)
    → ((y : A) → x ≡ returns y → Sends j Q (f y))
    → Sends j Q (run x >>= f)
unfolding run ◌>>=◌
Sends-bind_run (returns y) f kf = record { at = λ w. (kf y refl).at w }
Sends-bind_run panics f kf = record { at = λ w. tt }

pub ruleset grows_rules = (Grows-pure, Grows-stop, Grows-call, Grows-run, Grows-bind)

pub ruleset sends_rules = (Sends-now, Sends-later)
