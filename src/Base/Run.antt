-- ===== src/Base/Run.antt =====
-- A Go call that returns a value, or panics (an index out of range, a nil pointer).
use mathlib.Core.Path.{◌≡◌, refl}
use mathlib.Core.List.{List, [], ◌∷◌}
use mathlib.Core.Option.{Option, none, some}

pub data Run {ℓ} (A : Type ℓ) : Type ℓ where
  returns : A → Run A
  panics : Run A

infixl 5 ◌>>=◌
abbrev pub ◌>>=◌ {ℓ κ} : {A : Type ℓ} {B : Type κ} → Run A → (A → Run B) → Run B
returns a >>= f = f a
panics >>= f = panics

module _ {ℓ} {A : Type ℓ} where
  -- Reading through a pointer that may be nil.
  abbrev pub pointee : Option A → Run A
  pointee none = panics
  pointee (some a) = returns a

  -- `xs[0]`
  abbrev pub first : List A → Run A
  first [] = panics
  first (x ∷ xs) = returns x

  -- `xs[0] = f(xs[0])`
  abbrev pub at_first : (A → A) → List A → Run (List A)
  at_first f [] = panics
  at_first f (x ∷ xs) = returns (f x ∷ xs)

  -- `x` is what a run returns.
  pub returns-injective : {a b : A} → returns a ≡ returns b → a ≡ b
  returns-injective e = cc

module _ {ℓ κ} {A : Type ℓ} {B : Type κ} where
  -- Inversion of a run that returns.
  pub >>=-eq-returns :
      (m : Run A) (f : A → Run B) {b : B}
      → (m >>= f) ≡ returns b
      → (a : A) × (m ≡ returns a) × (f a ≡ returns b)
  >>=-eq-returns (returns a) f h = (a, refl, h)
  >>=-eq-returns panics f h = cc
