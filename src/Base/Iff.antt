-- ===== src/Base/Iff.antt =====
-- Equivalences between statements about lists of errors.
use mathlib.Core.Path.{◌≡◌, refl, ap}
use mathlib.Core.Logic.{◌↔◌}
use mathlib.Core.List.{List, [], ◌∷◌, ◌++◌}
use mathlib.Core.Bool.{Bool, true, false}
use codeflare_operator.Base.Tests.{if◌then◌else◌}
use codeflare_operator.Base.Run.{Run, returns, panics, ◌>>=◌}

module _ {A B C : Type 0} where
  pub iff_trans : A ↔ B → B ↔ C → A ↔ C
  iff_trans p q = (λ a. q.0 (p.0 a), λ c. p.1 (q.1 c))

pub iff_regroup : {A P Q R : Type 0} → A ↔ (P × (Q × R)) → A ↔ ((P × Q) × R)
iff_regroup p = (λ a. (((p.0 a).0, (p.0 a).1.0), (p.0 a).1.1), λ t. p.1 (t.0.0, (t.0.1, t.1)))

pub iff_sym : {A B : Type 0} → A ↔ B → B ↔ A
iff_sym p = (p.1, p.0)

module _ {A B C D : Type 0} where
  pub iff_product : A ↔ B → C ↔ D → (A × C) ↔ (B × D)
  iff_product p q = (λ t. (p.0 t.0, q.0 t.1), λ t. (p.1 t.0, q.1 t.1))

module _ {T : Type 0} where
  pub returns_iff : (xs : List T) → (returns xs ≡ returns []) ↔ (xs ≡ [])
  returns_iff xs = (λ e. cc, λ e. ap returns e)

  append-eq-nil : (xs ys : List T) → (xs ++ ys ≡ []) ↔ ((xs ≡ []) × (ys ≡ []))
  append-eq-nil [] ys = (λ e. (refl, e), λ t. t.1)
  append-eq-nil (x ∷ xs) ys = (λ e. cc, λ t. cc (t.0))

  -- A list in two parts is empty exactly where both parts' conditions hold.
  pub append_iff :
      {P Q : Type 0} (xs ys : List T) → (xs ≡ []) ↔ P → (ys ≡ []) ↔ Q → (xs ++ ys ≡ []) ↔ (P × Q)
  append_iff xs ys p q = iff_trans (append-eq-nil xs ys) (iff_product p q)

  -- A run of two parts that joins their lists.
  pub join_iff :
      {P Q : Type 0} (m n : Run (List T))
      → (m ≡ returns []) ↔ P
      → (n ≡ returns []) ↔ Q
      → ((m >>= λ xs. n >>= λ ys. returns (xs ++ ys)) ≡ returns []) ↔ (P × Q)
  join_iff (returns xs) (returns ys) p q = iff_trans (returns_iff (xs ++ ys)) (
      append_iff xs ys (iff_trans (iff_sym (returns_iff xs)) p)
        (iff_trans (iff_sym (returns_iff ys)) q))
  join_iff (returns xs) panics p q = (λ e. cc, λ t. cc (q.1 t.1))
  join_iff panics n p q = (λ e. cc, λ t. cc (p.1 t.0))

  -- Errors that count only under a condition.
  pub if_iff :
      {P : Type 0} (b : Bool) (xs : List T)
      → (xs ≡ []) ↔ P
      → ((if b then xs else []) ≡ []) ↔ (b ≡ true → P)
  if_iff true xs p = (λ e _. p.0 e, λ f. p.1 (f refl))
  if_iff false xs p = (λ _ h. absurd (cc h), λ _. refl)

  pub if_run_iff :
      {P : Type 0} (b : Bool) (m : Run (List T))
      → (m ≡ returns []) ↔ P
      → ((if b then m else returns []) ≡ returns []) ↔ (b ≡ true → P)
  if_run_iff true m p = (λ e _. p.0 e, λ f. p.1 (f refl))
  if_run_iff false m p = (λ _ h. absurd (cc h), λ _. refl)

  -- A run whose errors stand behind others.
  pub behind_iff :
      {P Q R : Type 0} (xs ys : List T) (m : Run (List T))
      → (xs ≡ []) ↔ P
      → (ys ≡ []) ↔ Q
      → (m ≡ returns []) ↔ R
      → ((m >>= λ zs. returns (xs ++ (ys ++ zs))) ≡ returns []) ↔ (P × (Q × R))
  behind_iff xs ys (returns zs) p q r =
      iff_trans (returns_iff (xs ++ (ys ++ zs)))
        (append_iff xs (ys ++ zs) p (append_iff ys zs q (iff_trans (iff_sym (returns_iff zs)) r)))
  behind_iff xs ys panics p q r = (λ e. cc, λ t. cc (r.1 t.1.1))

  -- Two runs whose errors stand between others.
  pub between_iff :
      {P Q R S U : Type 0} (xs ys : List T) (m n : Run (List T)) (vs : List T)
      → (xs ≡ []) ↔ P
      → (ys ≡ []) ↔ Q
      → (m ≡ returns []) ↔ R
      → (n ≡ returns []) ↔ S
      → (vs ≡ []) ↔ U
      → ((m >>= λ zs. n >>= λ us. returns (xs ++ (ys ++ (zs ++ (us ++ vs))))) ≡ returns [])
        ↔ (P × (Q × (R × (S × U))))
  between_iff xs ys (returns zs) (returns us) vs p q r s u =
      iff_trans (returns_iff (xs ++ (ys ++ (zs ++ (us ++ vs))))) (
        append_iff xs _ p (
          append_iff ys _ q (
            append_iff zs _ (iff_trans (iff_sym (returns_iff zs)) r)
              (append_iff us vs (iff_trans (iff_sym (returns_iff us)) s) u))))
  between_iff xs ys (returns zs) panics vs p q r s u = (λ e. cc, λ t. cc (s.1 t.1.1.1.0))
  between_iff xs ys panics n vs p q r s u = (λ e. cc, λ t. cc (r.1 t.1.1.0))
