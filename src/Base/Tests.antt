-- ===== src/Base/Tests.antt =====
-- The conditional, the split on a computed value, and Go's `ptr.Deref`.
use Prim.Native.Nat.{ℕ, compare, Ordering}
use Prim.Native.String.{String}
use mathlib.Core.Path.{◌≡◌, refl}
use mathlib.Core.Logic.{◌≢◌, ◌⊎◌, inl, inr}
use mathlib.Core.Bool.{Bool, true, false}
use mathlib.Core.Option.{Option, none, some}
use native.Mathlib.Omega.{arith}
use text.Mathlib.Text.{◌==◌}
use text.Mathlib.TextEquality.{eq_iff}

infix 1 if◌then◌else◌
abbrev pub if◌then◌else◌ {ℓ} : {A : Type ℓ} → Bool → A → A → A
if true then x else y = x
if false then x else y = y

abbrev pub ltb : ℕ → ℕ → Bool
ltb a b = elim (compare a b) [ Ordering.lt ↦ true | _ ↦ false ]

abbrev pub eqb : ℕ → ℕ → Bool
eqb a b = elim (compare a b) [ Ordering.eq ↦ true | _ ↦ false ]

pub Bool-cases : (b : Bool) → (b ≡ true) ⊎ (b ≡ false)
Bool-cases true = inl refl
Bool-cases false = inr refl

pub Option-cases {ℓ} : {A : Type ℓ} (o : Option A) → (o ≡ none) ⊎ ((a : A) × (o ≡ some a))
Option-cases none = inl refl
Option-cases (some a) = inr (a, refl)

pub eq-of-false : (s t : String) → (s == t) ≡ false → s ≢ t
eq-of-false s t h e = ground (arith, eq_iff s t)

pub eq-of-ne : (s t : String) → s ≢ t → (s == t) ≡ false
eq-of-ne s t h = ground (arith, eq_iff s t)

module _ {ℓ} {A : Type ℓ} where
  -- `ptr.Deref(p, fallback)` of k8s.io/utils: the value, or the fallback for a nil pointer.
  abbrev pub deref : Option A → A → A
  deref none fallback = fallback
  deref (some a) fallback = a
