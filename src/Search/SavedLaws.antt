-- ===== src/Search/SavedLaws.antt =====
-- ValidateSavedQuery of internal/service/catalogue_query.go: the numbers of a saved query, which it prints
-- and has the parser read again.
use holibrary_backend.Prelude.{
  ℕ, ◌≤◌, leb, ◌≡◌, ◌↔◌, refl, ◌&&◌, Option, none, some, List, [], ◌∷◌, if◌then◌else◌,
  trim_space-clear, arith,
}
use holibrary_backend.Domain.{invalid_search}
use holibrary_backend.Domain.Books.{number}
use holibrary_backend.Search.Numbers.{itoa}
use holibrary_backend.Search.NumberLaws.{atoi-itoa, itoa-no_space, itoa-length}
use holibrary_backend.Search.Query.{
  Key, year_from, year_to, page, per_page, key_of, take_key, take_values, take_all_keys, only_value,
  parse_catalogue_query, saved_value, saved_values, validate_saved_query,
}
use holibrary_backend.Search.Values.{within, bounded}

-- The largest number that a key takes, if it takes numbers.
unfoldable pub number_bound : Key → Option ℕ
number_bound year_from = some 9999
number_bound year_to = some 9999
number_bound page = some 1_000_000
number_bound per_page = some 100
number_bound _ = none

bounded-itoa : (max n : ℕ) → bounded max (itoa n) ≡ within max (some n)
unfolding bounded
bounded-itoa max n = rw (atoi-itoa n)

only_value-itoa : (n : ℕ) → only_value (itoa n ∷ []) ≡ some (itoa n)
only_value-itoa n = rw (trim_space-clear (itoa n) (itoa-no_space n), itoa-length n)

validate_key :
    (key : List ℕ) (k : Key) (n max : ℕ)
    → key_of key ≡ k
    → number_bound k ≡ some max
    → validate_saved_query ((key, number n) ∷ [])
      ≡ (if leb 1 n && leb n max then none else some invalid_search)
unfolding number_bound validate_saved_query saved_values parse_catalogue_query take_all_keys
    take_values take_key saved_value
validate_key key k n max e h = ground (arith, only_value-itoa n, bounded-itoa max n)

-- A saved query of one number, under a key that takes numbers, is valid exactly when the number is in
-- the bounds that a search has for that key.
pub validate_saved_query_number :
    (key : List ℕ) (n max : ℕ)
    → number_bound (key_of key) ≡ some max
    → (validate_saved_query ((key, number n) ∷ []) ≡ none) ↔ ((1 ≤ n) × (n ≤ max))
validate_saved_query_number key n max h = ground (arith, validate_key key (key_of key) n max refl h)
