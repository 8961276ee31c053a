-- ===== src/Controller/Effect/Only.antt =====
-- Which calls an action makes: one rule for each way to build an action.
use codeflare_operator.Base.{
  ◌≡◌, refl, sym, ap, ◌∙◌, Bool, true, false, List, [], ◌∷◌, ◌++◌, if◌then◌else◌,
}
use mathlib.Core.List.{append-nil, append_assoc, Memᴰ}
use mathlib.Core.List.Memᴰ.{append_left}
use codeflare_operator.Base.Lists.{All}
use codeflare_operator.Base.Run.{Run, returns, panics}
use codeflare_operator.Controller.Api.{Result, ok, err}
use codeflare_operator.Controller.Effect.{
  M, World, Step, Outcome, next, done, panicked, Call, continue, ◌>>=◌, pure, stop, run, call,
  noted, outside,
}

All-append : (P : Call → Type 0) (xs ys : List Call) → All P xs → All P ys → All P (xs ++ ys)
All-append P [] ys p q = q
All-append P (x ∷ xs) ys p q = (p.0, All-append P xs ys p.1 q)

pub Memᴰ-noted :
    {F A : Type 0} (r : Result F A) (c : Call) {x : Call} {calls : List Call}
    → Memᴰ x calls
    → Memᴰ x (noted r c calls)
Memᴰ-noted (ok a) c h = append_left (c ∷ []) h
Memᴰ-noted (err e) c h = h

-- The calls of the action, from any world, are added to the log and satisfy `P`; accepted calls stay.
pub record Only {F S A : Type 0} (P : Call → Type 0) (m : M F S A) : Type 0 where
  pub calls : World S → List Call
  pub log_eq : (w : World S) → (m w).1.log ≡ w.log ++ calls w
  pub all : (w : World S) → All P (calls w)
  pub stays : (w : World S) (x : Call) → Memᴰ x w.accepted → Memᴰ x (m w).1.accepted

module _ {F S A : Type 0} {P : Call → Type 0} where
  pub Only-pure : (x : A) → Only P (pure {F = F} {S = S} x)
  unfolding pure
  Only-pure x = record {
    calls = λ w. [];
    log_eq = λ w. sym (append-nil w.log);
    all = λ w. tt;
    stays = λ w x h. h;
  }

  pub Only-stop : (o : Outcome F) → Only P (stop {F = F} {S = S} {A = A} o)
  unfolding stop
  Only-stop o = record {
    calls = λ w. [];
    log_eq = λ w. sym (append-nil w.log);
    all = λ w. tt;
    stays = λ w x h. h;
  }

  pub Only-run : (x : Run A) → Only P (run {F = F} {S = S} x)
  unfolding run
  Only-run (returns x) = record {
    calls = λ w. [];
    log_eq = λ w. sym (append-nil w.log);
    all = λ w. tt;
    stays = λ w x h. h;
  }
  Only-run panics = record {
    calls = λ w. [];
    log_eq = λ w. sym (append-nil w.log);
    all = λ w. tt;
    stays = λ w x h. h;
  }

  pub Only-outside : (f : S → A × S) → Only P (outside {F = F} f)
  unfolding outside
  Only-outside f = record {
    calls = λ w. [];
    log_eq = λ w. sym (append-nil w.log);
    all = λ w. tt;
    stays = λ w x h. h;
  }

  pub Only-call : (c : Call) (f : S → Result F A × S) → P c → Only P (call c f)
  unfolding call
  Only-call c f p = record {
    calls = λ w. c ∷ [];
    log_eq = λ w. refl;
    all = λ w. (p, tt);
    stays = λ w x h. Memᴰ-noted (f w.server).0 c h;
  }

  pub Only-if :
      (b : Bool) (m n : M F S A)
      → (b ≡ true → Only P m)
      → (b ≡ false → Only P n)
      → Only P (if b then m else n)
  Only-if true m n km kn = km refl
  Only-if false m n km kn = kn refl

module _ {F S A B : Type 0} {P : Call → Type 0} where
  later : (r : Step F A) (f : A → M F S B) → ((x : A) → Only P (f x)) → Only P (continue r f)
  later (next x) f kf = kf x
  later (done o) f kf = record {
    calls = λ w. [];
    log_eq = λ w. sym (append-nil w.log);
    all = λ w. tt;
    stays = λ w x h. h;
  }
  later panicked f kf = record {
    calls = λ w. [];
    log_eq = λ w. sym (append-nil w.log);
    all = λ w. tt;
    stays = λ w x h. h;
  }

  pub Only-bind :
      (m : M F S A) (f : A → M F S B) → Only P m → ((x : A) → Only P (f x)) → Only P (m >>= f)
  unfolding ◌>>=◌
  Only-bind m f km kf = record {
    calls = λ w. km.calls w ++ (later (m w).0 f kf).calls (m w).1;
    log_eq = λ w.
        (later (m w).0 f kf).log_eq (m w).1
        ∙ ap (λ l. l ++ (later (m w).0 f kf).calls (m w).1) (km.log_eq w)
        ∙ append_assoc w.log (km.calls w) ((later (m w).0 f kf).calls (m w).1);
    all = λ w. All-append P (km.calls w) _ (km.all w) ((later (m w).0 f kf).all (m w).1);
    stays = λ w x h. (later (m w).0 f kf).stays (m w).1 x (km.stays w x h);
  }

-- What is known of the value that the step goes on with.
abbrev pub Given : {F A : Type 0} → (A → Type 0) → Step F A → Type 0
Given R (next x) = R x
Given R (done o) = Unit
Given R panicked = Unit

module _ {F S A B : Type 0} {P : Call → Type 0} {R : A → Type 0} where
  later_from :
      (r : Step F A) (f : A → M F S B)
      → Given R r
      → ((x : A) → R x → Only P (f x))
      → Only P (continue r f)
  later_from (next x) f g kf = kf x g
  later_from (done o) f g kf = record {
    calls = λ w. [];
    log_eq = λ w. sym (append-nil w.log);
    all = λ w. tt;
    stays = λ w x h. h;
  }
  later_from panicked f g kf = record {
    calls = λ w. [];
    log_eq = λ w. sym (append-nil w.log);
    all = λ w. tt;
    stays = λ w x h. h;
  }

  pub Only-bind_from :
      (m : M F S A) (f : A → M F S B)
      → Only P m
      → ((w : World S) → Given R (m w).0)
      → ((x : A) → R x → Only P (f x))
      → Only P (m >>= f)
  unfolding ◌>>=◌
  Only-bind_from m f km given kf = record {
    calls = λ w. km.calls w ++ (later_from (m w).0 f (given w) kf).calls (m w).1;
    log_eq = λ w.
        (later_from (m w).0 f (given w) kf).log_eq (m w).1
        ∙ ap (λ l. l ++ (later_from (m w).0 f (given w) kf).calls (m w).1) (km.log_eq w)
        ∙ append_assoc w.log (km.calls w) ((later_from (m w).0 f (given w) kf).calls (m w).1);
    all = λ w.
        All-append P (km.calls w) _ (km.all w) ((later_from (m w).0 f (given w) kf).all (m w).1);
    stays = λ w x h. (later_from (m w).0 f (given w) kf).stays (m w).1 x (km.stays w x h);
  }

-- After a computation that may panic.
pub Only-bind_run :
    {F S A B : Type 0} {P : Call → Type 0} (x : Run A) (f : A → M F S B)
    → ((y : A) → x ≡ returns y → Only P (f y))
    → Only P (run x >>= f)
unfolding run ◌>>=◌
Only-bind_run (returns y) f kf = kf y refl
Only-bind_run panics f kf = record {
  calls = λ w. [];
  log_eq = λ w. sym (append-nil w.log);
  all = λ w. tt;
  stays = λ w x h. h;
}

pub ruleset only_rules =
    (Only-pure, Only-stop, Only-run, Only-outside, Only-call, Only-if, Only-bind)

module _ {P Q : Call → Type 0} where
  All-weaken : ((c : Call) → P c → Q c) → (cs : List Call) → All P cs → All Q cs
  All-weaken f [] k = tt
  All-weaken f (c ∷ cs) k = (f c k.0, All-weaken f cs k.1)

  pub Only-weaken : {F S A : Type 0} {m : M F S A} → ((c : Call) → P c → Q c) → Only P m → Only Q m
  Only-weaken f k = record {
    calls = k.calls;
    log_eq = k.log_eq;
    all = λ w. All-weaken f (k.calls w) (k.all w);
    stays = k.stays;
  }
