-- ===== src/Startup/Text.antt =====
-- `strings.HasSuffix` and `strings.TrimSpace`, which main.go uses.
use Prim.Native.Char.{Char, code}
use codeflare_operator.Base.{
  ℕ, String, Bool, true, false, ◌&&◌, ◌||◌, List, [], ◌∷◌, ◌==◌, if◌then◌else◌, eqb, ◌≡◌, refl,
}

unfoldable pub has_suffix : String → String → Bool
has_suffix String.[] t = t == ""
has_suffix (String.◌∷◌ c s) t = String.◌∷◌ c s == t || has_suffix s t

is_one_of : ℕ → List ℕ → Bool
is_one_of n [] = false
is_one_of n (m ∷ ms) = eqb m n || is_one_of n ms

-- `unicode.IsSpace`
abbrev spaces : List ℕ
spaces =
    9 ∷ 10 ∷ 11 ∷ 12 ∷ 13 ∷ 32 ∷ 0x85 ∷ 0xa0 ∷ 0x1680 ∷ 0x2000 ∷ 0x2001 ∷ 0x2002 ∷ 0x2003 ∷ 0x2004
    ∷ 0x2005 ∷ 0x2006 ∷ 0x2007 ∷ 0x2008 ∷ 0x2009 ∷ 0x200a ∷ 0x2028 ∷ 0x2029 ∷ 0x202f ∷ 0x205f
    ∷ 0x3000 ∷ []

unfoldable pub is_space : Char → Bool
unfolding is_one_of
is_space c = is_one_of (code c) spaces

unfoldable pub trim_left : String → String
trim_left String.[] = ""
trim_left (String.◌∷◌ c s) = if is_space c then trim_left s else String.◌∷◌ c s

unfoldable pub trim_right : String → String
trim_right String.[] = ""
trim_right (String.◌∷◌ c s) =
    let rest = trim_right s in if is_space c && rest == "" then "" else String.◌∷◌ c rest

unfoldable pub trim_space : String → String
unfolding trim_left trim_right
trim_space s = trim_right (trim_left s)

has_suffix_test : has_suffix "route.openshift.io" ".openshift.io" ≡ true
unfolding has_suffix
has_suffix_test = refl

trim_space_test : trim_space " a b\n" ≡ "a b"
unfolding trim_space is_space
trim_space_test = refl
