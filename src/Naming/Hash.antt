-- ===== src/Naming/Hash.antt =====
-- `seededHash` of pkg/controllers/support.go: the first 8 characters of the digest in hexadecimal.
use Prim.Native.Char.{Char}
use Prim.Native.String.{count}
use codeflare_operator.Base.{
  ℕ, suc, zero, ◌+◌, ◌/◌, ◌%◌, ◌≤◌, String, ◌<>◌, ◌≡◌, refl, ap, ◌∙◌, List, [], ◌∷◌, arith,
}
use codeflare_operator.Base.Lists.{length, take, get_or}
use codeflare_operator.Host.{Host, IsSha256}
use text.Mathlib.TextLemmas.{length-cons}

abbrev digits : List Char
digits =
    "0" ∷ "1" ∷ "2" ∷ "3" ∷ "4" ∷ "5" ∷ "6" ∷ "7" ∷ "8" ∷ "9" ∷ "a" ∷ "b" ∷ "c" ∷ "d" ∷ "e" ∷ "f"
    ∷ []

-- `fmt.Sprintf("%x", bytes)`: two digits for each byte.
hex : List ℕ → List Char
hex [] = []
hex (b ∷ bs) = get_or digits (b / 16) "0" ∷ get_or digits (b % 16) "0" ∷ hex bs

abbrev of_chars : List Char → String
of_chars [] = String.[]
of_chars (c ∷ cs) = String.◌∷◌ c (of_chars cs)

abbrev hash_length : ℕ
hash_length = 8

-- The slice `[:hashLength]` of a text of one-byte characters.
unfoldable pub seeded_hash : Host → String → String → String
unfolding hex
seeded_hash h seed s = of_chars (take hash_length (hex (h.sum256 (seed <> s))))

length-hex : (bs : List ℕ) → length (hex bs) ≡ length bs + length bs
unfolding hex
length-hex [] = omega arith
length-hex (b ∷ bs) = omega (arith, length-hex bs)

length-take_le {ℓ} : {A : Type ℓ} (n : ℕ) (xs : List A) → n ≤ length xs → length (take n xs) ≡ n
length-take_le zero xs h = refl
length-take_le (suc n) [] h = elim h [ ]
length-take_le (suc n) (x ∷ xs) h = ap suc (length-take_le n xs (omega arith))

count-of_chars : (cs : List Char) → count (of_chars cs) ≡ length cs
count-of_chars [] = refl
count-of_chars (c ∷ cs) = length-cons c (of_chars cs) ∙ ap suc (count-of_chars cs)

-- The hash is 8 characters long: the slice of the 64 digits never cuts short.
pub count-seeded_hash :
    (h : Host) → IsSha256 h → (seed s : String) → count (seeded_hash h seed s) ≡ 8
unfolding seeded_hash
count-seeded_hash h is_sha seed s =
    count-of_chars _
    ∙ length-take_le 8 (hex (h.sum256 (seed <> s)))
        (omega (arith, length-hex (h.sum256 (seed <> s)), is_sha.size (seed <> s)))
