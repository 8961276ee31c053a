-- ===== src/Base/Decimal.antt =====
-- `strconv.Itoa` of a number that is not negative.
use codeflare_operator.Base.Tests.{if◌then◌else◌, ltb}
use codeflare_operator.Base.Lists.{get_or}
use Prim.Native.Nat.{ℕ, zero, suc, ◌/◌, ◌%◌}
use Prim.Native.String.{String, ◌++◌}
use mathlib.Core.List.{List, [], ◌∷◌}

abbrev digits : List String
digits = "0" ∷ "1" ∷ "2" ∷ "3" ∷ "4" ∷ "5" ∷ "6" ∷ "7" ∷ "8" ∷ "9" ∷ []

-- One digit for each round; a number has fewer digits than its successor has units.
itoa_fuel : ℕ → ℕ → String
itoa_fuel zero n = ""
itoa_fuel (suc fuel) n =
    let longer = itoa_fuel fuel (n / 10) ++ get_or digits (n % 10) "" in
    if ltb n 10 then get_or digits n "" else longer

unfoldable pub itoa : ℕ → String
unfolding itoa_fuel
itoa n = itoa_fuel (suc n) n
