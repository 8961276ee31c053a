-- ===== src/Startup/Effect/Triple.antt =====
-- Hoare triples over the steps of main.go: a progress that is read off the log of deeds, and an
-- invariant of it that holds however the step ends.
use codeflare_operator.Base.{
  ◌≡◌, refl, sym, Bool, true, false, Option, none, some, String, List, [], ◌∷◌, ◌++◌, if◌then◌else◌,
}
use mathlib.Core.Path.{subst}
use codeflare_operator.Controller.Api.{Error, Result, ok, err}
use codeflare_operator.Startup.Effect.{
  Deed, Step, World, M, next, exited, panicked, continue, ◌>>=◌, pure, panic, ask, exit_on_error,
  pointee, note,
}

-- A progress, how a deed advances it, and the invariant.
pub record Monitor (C : Type 0) : Type 1 where
  pub Progress : Type 0
  pub advance : Progress → Deed C → Progress
  pub Sound : Progress → Type 0

module _ {C : Type 0} (o : Monitor C) where
  abbrev pub scan : o.Progress → List (Deed C) → o.Progress
  scan s [] = s
  scan s (d ∷ ds) = scan (o.advance s d) ds

  pub scan-append :
      (s : o.Progress) (ds : List (Deed C)) (d : Deed C)
      → scan s (ds ++ d ∷ []) ≡ o.advance (scan s ds) d
  scan-append s [] d = refl
  scan-append s (e ∷ ds) d = scan-append (o.advance s e) ds d

abbrev pub Goes : {F A : Type 0} → Step F A → (A → Type 0) → Type 0
Goes (next x) Q = Q x
Goes (exited e text) Q = Unit
Goes panicked Q = Unit

weaker :
    {F A : Type 0} (r : Step F A) (Q R : A → Type 0) → ((x : A) → Q x → R x) → Goes r Q → Goes r R
weaker (next x) Q R f q = f x q
weaker (exited e text) Q R f q = tt
weaker panicked Q R f q = tt

module _ {F S C : Type 0} (o : Monitor C) where
  module _ (s : o.Progress) where
    -- From a sound progress with `I`, the step ends sound, and with `Q` if it goes on.
    pub record Triple {A : Type 0} (I : o.Progress → Type 0) (m : M F S C A)
        (Q : A → o.Progress → Type 0) : Type 0 where
      pub keeps :
          (w : World S C)
          → o.Sound (scan o s w.deeds)
          → I (scan o s w.deeds)
          → o.Sound (scan o s (m w).1.deeds)
      pub leads :
          (w : World S C)
          → o.Sound (scan o s w.deeds)
          → I (scan o s w.deeds)
          → Goes (m w).0 (λ x. Q x (scan o s (m w).1.deeds))

    module _ {A : Type 0} {I : o.Progress → Type 0} where
      pub Triple-pure :
          (x : A) (Q : A → o.Progress → Type 0)
          → ((t : o.Progress) → I t → Q x t)
          → Triple I (pure x) Q
      unfolding pure
      Triple-pure x Q f = record { keeps = λ w k i. k; leads = λ w k i. f _ i }

      pub Triple-panic : (Q : A → o.Progress → Type 0) → Triple I panic Q
      unfolding panic
      Triple-panic Q = record { keeps = λ w k i. k; leads = λ w k i. tt }

      pub Triple-ask : (f : S → A × S) → Triple I (ask f) (λ x. I)
      unfolding ask
      Triple-ask f = record { keeps = λ w k i. k; leads = λ w k i. i }

      pub Triple-exit_on_error :
          (r : Result (Error F) A) (text : String) → Triple I (exit_on_error r text) (λ x. I)
      unfolding exit_on_error
      Triple-exit_on_error (ok x) text = record { keeps = λ w k i. k; leads = λ w k i. i }
      Triple-exit_on_error (err e) text = record { keeps = λ w k i. k; leads = λ w k i. tt }

      -- The same, with what is known of the value.
      pub Triple-exit_of :
          (r : Result (Error F) A) (text : String) (Q : A → o.Progress → Type 0)
          → ((x : A) (t : o.Progress) → r ≡ ok x → I t → Q x t)
          → Triple I (exit_on_error r text) Q
      unfolding exit_on_error
      Triple-exit_of (ok x) text Q f = record { keeps = λ w k i. k; leads = λ w k i. f x _ refl i }
      Triple-exit_of (err e) text Q f = record { keeps = λ w k i. k; leads = λ w k i. tt }

      pub Triple-pointee : (x : Option A) → Triple I (pointee x) (λ y. I)
      unfolding pointee
      Triple-pointee none = record { keeps = λ w k i. k; leads = λ w k i. tt }
      Triple-pointee (some y) = record { keeps = λ w k i. k; leads = λ w k i. i }

      pub Triple-if :
          (b : Bool) (m n : M F S C A) (Q : A → o.Progress → Type 0)
          → (b ≡ true → Triple I m Q)
          → (b ≡ false → Triple I n Q)
          → Triple I (if b then m else n) Q
      Triple-if true m n Q km kn = km refl
      Triple-if false m n Q km kn = kn refl

      pub Triple-weaken :
          (m : M F S C A) (Q R : A → o.Progress → Type 0)
          → ((x : A) (t : o.Progress) → Q x t → R x t)
          → Triple I m Q
          → Triple I m R
      Triple-weaken m Q R f km = record {
        keeps = λ w k i. km.keeps w k i;
        leads = λ w k i. weaker (m w).0 _ _ (λ x. f x _) (km.leads w k i);
      }

      -- A fact that the precondition holds beside it.
      pub Triple-given :
          (P : Type 0) (m : M F S C A) (Q : A → o.Progress → Type 0)
          → (P → Triple I m Q)
          → Triple (λ t. P × I t) m Q
      Triple-given P m Q f = record {
        keeps = λ w k i. (f i.0).keeps w k i.1;
        leads = λ w k i. (f i.0).leads w k i.1;
      }

    pub Triple-note :
        {I : o.Progress → Type 0} (d : Deed C) (Q : Unit {0} → o.Progress → Type 0)
        → ((t : o.Progress) → o.Sound t → I t → o.Sound (o.advance t d) × Q tt (o.advance t d))
        → Triple I (note d) Q
    unfolding note
    Triple-note d Q f = record {
      keeps = λ w k i. subst o.Sound (sym (scan-append o s w.deeds d)) (f _ k i).0;
      leads = λ w k i. subst (Q tt) (sym (scan-append o s w.deeds d)) (f _ k i).1;
    }

    module _ {A B : Type 0} {Q : A → o.Progress → Type 0} where
      later :
          (r : Step F A) (f : A → M F S C B) (K : B → o.Progress → Type 0) (w : World S C)
          → o.Sound (scan o s w.deeds)
          → Goes r (λ x. Q x (scan o s w.deeds))
          → ((x : A) → Triple (Q x) (f x) K)
          → o.Sound (scan o s (continue r f w).1.deeds)
            × Goes (continue r f w).0 (λ y. K y (scan o s (continue r f w).1.deeds))
      later (next x) f K w k j kf = ((kf x).keeps w k j, (kf x).leads w k j)
      later (exited e text) f K w k j kf = (k, tt)
      later panicked f K w k j kf = (k, tt)

      pub Triple-bind :
          {I : o.Progress → Type 0} (m : M F S C A) (f : A → M F S C B)
          (K : B → o.Progress → Type 0)
          → Triple I m Q
          → ((x : A) → Triple (Q x) (f x) K)
          → Triple I (m >>= f) K
      unfolding ◌>>=◌
      Triple-bind m f K km kf = record {
        keeps = λ w k i. (later (m w).0 f K (m w).1 (km.keeps w k i) (km.leads w k i) kf).0;
        leads = λ w k i. (later (m w).0 f K (m w).1 (km.keeps w k i) (km.leads w k i) kf).1;
      }
