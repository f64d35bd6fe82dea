-- ===== src/Catalogue/Isbn.antt =====
-- validISBN of internal/service/book_metadata.go. A text with a rune past ASCII is refused there by
-- its bytes and here by its code points, with one result.
use holibrary_backend.Prelude.{
  ℕ, ◌+◌, ◌-◌, ◌*◌, ◌%◌, ◌==◌, leb, Bool, false, ◌&&◌, not, Option, none, some, List, [], ◌∷◌,
  if◌then◌else◌, length, codes, has_prefix,
}

abbrev is_digit : ℕ → Bool
is_digit r = leb b'0' r && leb r b'9'

-- The digit of a rune at index i of an ISBN-10.
unfoldable pub digit_ten : ℕ → ℕ → Option ℕ
digit_ten i r =
    if i == 9 && r == b'X' then some 10 else if not (is_digit r) then none else some (r - b'0')

abbrev pub digit_thirteen : ℕ → Option ℕ
digit_thirteen r = if not (is_digit r) then none else some (r - b'0')

abbrev pub weight_ten : ℕ → ℕ
weight_ten i = 10 - i

abbrev pub weight_thirteen : ℕ → ℕ
weight_thirteen i = if i % 2 == 1 then 3 else 1

-- The two loops, with what a rune counts for and the weight of an index.
unfoldable pub checksum : (ℕ → ℕ → Option ℕ) → (ℕ → ℕ) → ℕ → ℕ → List ℕ → Option ℕ
checksum digit weight i sum [] = some sum
checksum digit weight i sum (r ∷ s) = elim (digit i r) [
  | none ↦ none
  | some d ↦ checksum digit weight (i + 1) (sum + weight i * d) s
]

abbrev pub divides : ℕ → Option ℕ → Bool
divides m none = false
divides m (some sum) = sum % m == 0

unfoldable pub valid_isbn : List ℕ → ℕ → Bool
valid_isbn value n =
    if not (length value == n)
    then false
    else if n == 10
    then divides 11 (checksum digit_ten weight_ten 0 0 value)
    else if not (has_prefix value (codes "978")) && not (has_prefix value (codes "979"))
    then false
    else divides 10 (checksum (λ i r. digit_thirteen r) weight_thirteen 0 0 value)
