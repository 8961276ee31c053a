-- ===== src/Support/Upsert.antt =====
-- `upsert` as an update of a finite map: the first item of a name is what the map holds there.
use codeflare_operator.Base.{
  String, ◌≡◌, refl, Option, none, some, List, [], ◌∷◌, ◌++◌, arith, ◌==◌, eq_iff, if◌then◌else◌,
  map,
}
use codeflare_operator.Support.{Compare, upsert}

module _ {ℓ} {T : Type ℓ} (key : T → String) where
  -- The first item of a name.
  unfoldable pub find_first : String → List T → Option T
  find_first k [] = none
  find_first k (t ∷ items) = if key t == k then some t else find_first k items

  -- A predicate that compares the names of two items.
  abbrev pub IsByName : Compare T → T → Type ℓ
  IsByName predicate item = (t : T) → predicate t item ≡ (key t == key item)

  module _ (predicate : Compare T) (item : T) (by_name : IsByName predicate item) where
    -- Reading a name after `upsert` gives the new item at its own name, and what was there at any
    -- other.
    pub find_first-upsert :
        (k : String) (items : List T)
        → find_first k (upsert items item predicate)
          ≡ (if key item == k then some item else find_first k items)
    unfolding find_first upsert
    find_first-upsert k [] = refl
    find_first-upsert k (t ∷ items) = rw (by_name t) (
        ground (
          arith,
          find_first-upsert k items,
          eq_iff (key t) (key item),
          eq_iff (key t) k,
          eq_iff (key item) k,
        ))

    -- An item that is there already is put again without any change.
    pub upsert-eq_self :
        (items : List T)
        → find_first (key item) items ≡ some item
        → upsert items item predicate ≡ items
    unfolding find_first upsert
    upsert-eq_self [] h = cc
    upsert-eq_self (t ∷ items) h = rw (by_name t) (ground (arith, upsert-eq_self items))

    -- The names, in order: unchanged if the item's name is there, else with it at the end.
    pub map-upsert :
        (items : List T)
        → map key (upsert items item predicate) ≡ elim (find_first (key item) items) [
          | none ↦ map key items ++ key item ∷ []
          | some _ ↦ map key items
        ]
    unfolding find_first upsert
    map-upsert [] = refl
    map-upsert (t ∷ items) =
        rw (by_name t) (ground (arith, map-upsert items, eq_iff (key t) (key item)))
