-- ===== src/Support/Contains.antt =====
-- When `contains` reports nothing.
use codeflare_operator.Base.{
  String, ◌≡◌, ◌↔◌, refl, Bool, true, none, some, List, [], ◌∷◌, arith, ◌==◌, Bool-cases, inl, inr,
}
use codeflare_operator.Support.{Compare, contains}
use codeflare_operator.Support.Fields.{Value}
use codeflare_operator.Support.Upsert.{find_first, IsByName}

module _ {T : Type 0} (key : T → String) (derivative : T → T → Bool) where
  -- The first item of the wanted name is there and has all that the wanted item sets.
  abbrev pub Holds : List T → T → Type 0
  Holds items item =
      (t : T) × (find_first key (key item) items ≡ some t) × (derivative item t ≡ true)

  -- `contains` reports no error exactly for the lists that hold the item.
  pub contains-eq-none_iff :
      (value : T → Value) (item : T) (predicate : Compare T) (path : List String) (msg : String)
      → IsByName key predicate item
      → (items : List T)
      → (contains derivative value items item predicate path msg ≡ none) ↔ Holds items item
  unfolding contains find_first
  contains-eq-none_iff value item predicate path msg by_name [] = (λ h. cc, λ (t, e, _). cc)
  contains-eq-none_iff value item predicate path msg by_name (t ∷ items) =
      let ih = contains-eq-none_iff value item predicate path msg by_name items in
      elim (Bool-cases (key t == key item)) [
        | inl same ↦ rw (by_name t, same) (λ h. (t, refl, ground arith), λ (u, e, d). ground arith)
        | inr other ↦ rw (by_name t, other) ih
      ]
