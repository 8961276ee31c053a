-- ===== src/Support/UpsertAll.antt =====
-- The loops `for _, x := range new { items = upsert(items, x, ...) }` of the webhook.
use codeflare_operator.Base.{String, ◌≡◌, refl, ◌∙◌, ap, false, some, List, [], ◌∷◌, ◌==◌, eq_refl}
use codeflare_operator.Base.Lists.{All}
use codeflare_operator.Support.{Compare, upsert}
use codeflare_operator.Support.Upsert.{find_first, IsByName, find_first-upsert, upsert-eq_self}

module _ {ℓ} {T : Type ℓ} (key : T → String) where
  -- No item of the list has the name.
  abbrev pub Fresh : String → List T → Type 0
  Fresh k = All (λ t. (key t == k) ≡ false)

  abbrev pub Distinct : List T → Type 0
  Distinct [] = Unit
  Distinct (t ∷ items) = Fresh (key t) items × Distinct items

  -- Each of the new items is the first of its name.
  abbrev pub AllFound : List T → List T → Type ℓ
  AllFound new items = All (λ t. find_first key (key t) items ≡ some t) new

module _ {ℓ} {T : Type ℓ} (compare : T → Compare T) where
  unfoldable pub upsert_all : List T → List T → List T
  upsert_all [] items = items
  upsert_all (t ∷ new) items = upsert_all new (upsert items t (compare t))

module _ {ℓ} {T : Type ℓ} (key : T → String) (compare : T → Compare T)
    (by_name : (item : T) → IsByName key (compare item) item) where
  pub find_first-upsert_all :
      (k : String) (new items : List T)
      → Fresh key k new
      → find_first key k (upsert_all compare new items) ≡ find_first key k items
  unfolding upsert_all
  find_first-upsert_all k [] items fresh = refl
  find_first-upsert_all k (t ∷ new) items (other, fresh) =
      find_first-upsert_all k new (upsert items t (compare t)) fresh
      ∙ find_first-upsert key (compare t) t (by_name t) k items
      ∙ rw other

  pub upsert_all-AllFound :
      (new items : List T) → Distinct key new → AllFound key new (upsert_all compare new items)
  unfolding upsert_all
  upsert_all-AllFound [] items distinct = tt
  upsert_all-AllFound (t ∷ new) items (fresh, distinct) = (
    find_first-upsert_all (key t) new (upsert items t (compare t)) fresh
        ∙ find_first-upsert key (compare t) t (by_name t) (key t) items
        ∙ rw eq_refl,
    upsert_all-AllFound new (upsert items t (compare t)) distinct,
  )

  -- Items that are all there are put again without any change.
  pub upsert_all-eq_self :
      (new items : List T) → AllFound key new items → upsert_all compare new items ≡ items
  unfolding upsert_all
  upsert_all-eq_self [] items found = refl
  upsert_all-eq_self (t ∷ new) items (here, found) =
      ap (upsert_all compare new) (upsert-eq_self key (compare t) t (by_name t) items here)
      ∙ upsert_all-eq_self new items found

  pub upsert_all_idem :
      (new items : List T)
      → Distinct key new
      → upsert_all compare new (upsert_all compare new items) ≡ upsert_all compare new items
  upsert_all_idem new items distinct =
      upsert_all-eq_self new (upsert_all compare new items) (upsert_all-AllFound new items distinct)
