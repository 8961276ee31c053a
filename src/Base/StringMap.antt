-- ===== src/Base/StringMap.antt =====
-- Go's `map[string]string` as a list of entries. A nil map is read as the empty one.
use Prim.Native.String.{String}
use mathlib.Core.Path.{◌≡◌}
use mathlib.Core.Option.{Option, none, some}
use mathlib.Core.List.{List, [], ◌∷◌}
use native.Mathlib.Omega.{arith}
use text.Mathlib.Text.{◌==◌}
use text.Mathlib.TextPositions.{eq_refl}
use codeflare_operator.Base.Tests.{if◌then◌else◌}

abbrev pub StringMap : Type 0
StringMap = List (String × String)

-- `v, ok := m[k]`
unfoldable pub lookup : String → StringMap → Option String
lookup k [] = none
lookup k ((j, v) ∷ m) = if j == k then some v else lookup k m

-- `m[k] = v`
unfoldable pub insert : String → String → StringMap → StringMap
insert k v [] = (k, v) ∷ []
insert k v ((j, w) ∷ m) = if j == k then (j, v) ∷ m else (j, w) ∷ insert k v m

pub lookup-insert_self : (k v : String) (m : StringMap) → lookup k (insert k v m) ≡ some v
unfolding lookup insert
lookup-insert_self k v [] = rw eq_refl
lookup-insert_self k v ((j, w) ∷ m) = ground (arith, lookup-insert_self k v m)

pub insert_idem : (k v : String) (m : StringMap) → insert k v (insert k v m) ≡ insert k v m
unfolding insert
insert_idem k v [] = rw eq_refl
insert_idem k v ((j, w) ∷ m) = ground (arith, insert_idem k v m)
