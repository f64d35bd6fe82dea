-- ===== src/Search/Values.antt =====
-- The tests of one value in internal/service/catalogue_query.go, with normaliseISBN of catalogue_service.go.
-- Text is a list of code points, so it is always valid UTF-8.
use holibrary_backend.Prelude.{
  ℕ, ◌+◌, leb, ◌==◌, Bool, true, false, ◌&&◌, ◌||◌, not, Option, none, some, List, [], ◌∷◌,
  if◌then◌else◌, codes, text_eq, trim_space, length, select_where,
}
use holibrary_backend.Search.Numbers.{atoi, is_control, is_digit_code}

pub data SortOrder : Type 0 where
  relevance title_order newest oldest : SortOrder

unfoldable pub no_control : List ℕ → Bool
no_control [] = true
no_control (c ∷ s) = not (is_control c) && no_control s

unfoldable pub plain_text : ℕ → List ℕ → Bool
plain_text max v = leb (length v) max && no_control v

-- normaliseISBN
unfoldable pub normalise_isbn : List ℕ → List ℕ
normalise_isbn v = select_where (λ c. not (c == b'-' || c == 32)) (trim_space v)

-- The loop over the characters of an ISBN of n digits, from index i.
unfoldable pub isbn_digits : ℕ → ℕ → List ℕ → Bool
isbn_digits n i [] = true
isbn_digits n i (c ∷ s) =
    (is_digit_code c || n == 10 && i == 9 && (c == b'X' || c == b'x')) && isbn_digits n (i + 1) s

unfoldable pub isbn_shape : List ℕ → Bool
isbn_shape v = (length v == 10 || length v == 13) && isbn_digits (length v) 0 v

unfoldable pub one_letter : List ℕ → Bool
one_letter [] = false
one_letter (c ∷ s) = leb b'A' c && leb c b'Z' && length s == 0

abbrev pub within : ℕ → Option ℕ → Option ℕ
within max none = none
within max (some n) = if leb 1 n && leb n max then some n else none

unfoldable pub bounded : ℕ → List ℕ → Option ℕ
bounded max v = within max (atoi v)

unfoldable pub truth : List ℕ → Option Bool
truth v =
    if text_eq v (codes "true") || text_eq v (codes "1")
    then some true
    else if text_eq v (codes "false") || text_eq v (codes "0")
    then some false
    else none

unfoldable pub sort_order : List ℕ → Option SortOrder
sort_order v =
    if text_eq v (codes "relevance")
    then some relevance
    else if text_eq v (codes "title")
    then some title_order
    else if text_eq v (codes "newest") || text_eq v (codes "year_desc")
    then some newest
    else if text_eq v (codes "oldest") || text_eq v (codes "year_asc")
    then some oldest
    else none

unfoldable pub is_wing : List ℕ → Bool
is_wing v = text_eq v (codes "South") || text_eq v (codes "North") || text_eq v (codes "Unknown")
