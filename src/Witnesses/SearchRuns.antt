-- ===== src/Witnesses/SearchRuns.antt =====
-- Queries of the public search, a saved query, and class marks.
use holibrary_backend.Prelude.{
  ℕ, ◌-◌, ◌*◌, ◌≤◌, ◌≡◌, ◌↔◌, refl, false, true, none, some, List, [], ◌∷◌, ◌++◌, ok, codes,
  text_eq, trim_space,
}
use holibrary_backend.Domain.Books.{number}
use holibrary_backend.Search.Numbers.{atoi, read_digits, unsigned}
use holibrary_backend.Search.Query.{
  SearchParams, defaults, parse_catalogue_query, take_all_keys, take_values, take_key, key_of,
  validate_saved_query,
}
use holibrary_backend.Search.Values.{plain_text, no_control, bounded}
use holibrary_backend.Search.QueryLaws.{
  parse_catalogue_query_bounds, parse_catalogue_query_comm, key_index,
}
use holibrary_backend.Search.SavedLaws.{validate_saved_query_number, number_bound}
use holibrary_backend.Catalogue.Metadata.{
  is_call_number, class_letters, after_letters, class_number, after_number, decimal,
  ends_class_mark, all_tail,
}

abbrev query : List (List ℕ × List (List ℕ))
query =
    (codes "title", codes " algorithms " ∷ [])
    ∷ (codes "page", codes "3" ∷ [])
    ∷ (codes "per_page", codes "50" ∷ [])
    ∷ (codes "year_from", codes "1990" ∷ [])
    ∷ []

abbrev parsed : SearchParams
parsed = record defaults {
  title = codes "algorithms";
  page = 3;
  limit = 50;
  year_from = some 1990;
  offset = 100;
}

query-ok : parse_catalogue_query query ≡ ok parsed
unfolding parse_catalogue_query take_all_keys take_values take_key key_of plain_text no_control
    bounded text_eq trim_space atoi read_digits unsigned
query-ok = refl

parse_catalogue_query_bounds_example :
    (1 ≤ parsed.limit)
    × (parsed.limit ≤ 100)
    × (1 ≤ parsed.page)
    × (parsed.page ≤ 1_000_000)
    × (parsed.offset ≡ (parsed.page - 1) * parsed.limit)
    × (parsed.offset ≤ 99_999_900)
    × ((a : ℕ) → parsed.year_from ≡ some a → (1 ≤ a) × (a ≤ 9999))
    × ((b : ℕ) → parsed.year_to ≡ some b → (1 ≤ b) × (b ≤ 9999))
    × ((a b : ℕ) → parsed.year_from ≡ some a → parsed.year_to ≡ some b → a ≤ b)
parse_catalogue_query_bounds_example = parse_catalogue_query_bounds query parsed query-ok

parse_catalogue_query_comm_example :
    parse_catalogue_query
      (query ++ (codes "sort", codes "newest" ∷ []) ∷ (codes "wing", codes "South" ∷ []) ∷ [])
    ≡ parse_catalogue_query
        (query ++ (codes "wing", codes "South" ∷ []) ∷ (codes "sort", codes "newest" ∷ []) ∷ [])
unfolding key_index key_of text_eq
parse_catalogue_query_comm_example =
    parse_catalogue_query_comm query [] (codes "sort") (codes "wing") (codes "newest" ∷ [])
      (codes "South" ∷ []) refl

validate_saved_query_number_example :
    (validate_saved_query ((codes "per_page", number 50) ∷ []) ≡ none) ↔ ((1 ≤ 50) × (50 ≤ 100))
unfolding number_bound key_of text_eq
validate_saved_query_number_example = validate_saved_query_number (codes "per_page") 50 100 refl

class_marks :
    (is_call_number (codes "QA76.73") ≡ true)
    × (is_call_number (codes "DT 515.15 .OB21") ≡ true)
    × (is_call_number (codes "Z1003") ≡ true)
    × (is_call_number (codes "005.133") ≡ false)
    × (is_call_number (codes "QA76.") ≡ false)
    × (is_call_number (codes "ABCD1") ≡ false)
unfolding is_call_number class_letters after_letters class_number after_number decimal
    ends_class_mark all_tail
class_marks = (refl, refl, refl, refl, refl, refl)
