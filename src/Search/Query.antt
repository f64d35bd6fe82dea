-- ===== src/Search/Query.antt =====
-- ParseCatalogueQuery and ValidateSavedQuery of internal/service/catalogue_query.go. A query is a list of keys with their values, in the order in which Go happens to
-- go through the map. Text is a list of code points, so it is always valid UTF-8.
use holibrary_backend.Prelude.{
  ℕ, ◌-◌, ◌*◌, leb, ◌==◌, Bool, true, false, ◌&&◌, Option, none, some, List, [], ◌∷◌, Result, ok,
  err, if◌then◌else◌, codes, text_eq, trim_space, length,
}
use holibrary_backend.Domain.{Error, invalid_search}
use holibrary_backend.Domain.Books.{Json, bool_value, number, negative, text_value}
use holibrary_backend.Search.Values.{
  SortOrder, plain_text, normalise_isbn, isbn_shape, one_letter, bounded, truth, sort_order,
  is_wing, relevance,
}
use holibrary_backend.Search.Numbers.{itoa, to_upper}

-- The keys of the contract; `no_key` is any other.
pub data Key : Type 0 where
  q title author subject faculty department language isbn call_number class : Key
  wing available borrowable year_from year_to sort page per_page no_key : Key

abbrev named : List (Key × List ℕ) → List ℕ → Key
named [] s = no_key
named ((k, name) ∷ names) s = if text_eq name s then k else named names s

unfoldable pub key_of : List ℕ → Key
key_of = named (
    (q, codes "q")
    ∷ (title, codes "title")
    ∷ (author, codes "author")
    ∷ (subject, codes "subject")
    ∷ (faculty, codes "faculty")
    ∷ (department, codes "department")
    ∷ (language, codes "language")
    ∷ (isbn, codes "isbn")
    ∷ (call_number, codes "call_number")
    ∷ (class, codes "class")
    ∷ (wing, codes "wing")
    ∷ (available, codes "available")
    ∷ (borrowable, codes "borrowable")
    ∷ (year_from, codes "year_from")
    ∷ (year_to, codes "year_to")
    ∷ (sort, codes "sort")
    ∷ (page, codes "page")
    ∷ (per_page, codes "per_page")
    ∷ [])

-- postgres.SearchParams, with the number of the page that the caller is told.
pub record SearchParams : Type 0 where
  pub query : List ℕ
  pub title : List ℕ
  pub author : List ℕ
  pub subject : List ℕ
  pub faculty : List ℕ
  pub department : List ℕ
  pub language : List ℕ
  pub isbn : List ℕ
  pub call_number : List ℕ
  pub lcc_class : List ℕ
  pub wing : List ℕ
  pub available : Option Bool
  pub borrowable : Option Bool
  pub year_from : Option ℕ
  pub year_to : Option ℕ
  pub sort : SortOrder
  pub limit : ℕ
  pub page : ℕ
  pub offset : ℕ

abbrev pub defaults : SearchParams
defaults = record {
  query = [];
  title = [];
  author = [];
  subject = [];
  faculty = [];
  department = [];
  language = [];
  isbn = [];
  call_number = [];
  lcc_class = [];
  wing = [];
  available = none;
  borrowable = none;
  year_from = none;
  year_to = none;
  sort = relevance;
  limit = 20;
  page = 1;
  offset = 0;
}

abbrev when : Bool → SearchParams → Option SearchParams
when b p = if b then some p else none

abbrev with {ℓ} : {A : Type ℓ} → Option A → (A → SearchParams) → Option SearchParams
with none f = none
with (some a) f = some (f a)

-- One turn of the loop: the value of a key, trimmed.
unfoldable pub take_key : Key → List ℕ → SearchParams → Option SearchParams
take_key q v p = when (plain_text 500 v) (record p { query = v })
take_key title v p = when (plain_text 200 v) (record p { title = v })
take_key author v p = when (plain_text 200 v) (record p { author = v })
take_key subject v p = when (plain_text 200 v) (record p { subject = v })
take_key faculty v p = when (plain_text 200 v) (record p { faculty = v })
take_key department v p = when (plain_text 200 v) (record p { department = v })
take_key language v p = when (plain_text 200 v) (record p { language = v })
take_key isbn v p =
    when (plain_text 200 v && isbn_shape (normalise_isbn v))
      (record p { isbn = to_upper (normalise_isbn v) })
take_key call_number v p = when (plain_text 200 v) (record p { call_number = v })
take_key class v p =
    when (plain_text 200 v && one_letter (to_upper v)) (record p { lcc_class = to_upper v })
take_key wing v p = when (is_wing v) (record p { wing = v })
take_key available v p = with (truth v) (λ b. record p { available = some b })
take_key borrowable v p = with (truth v) (λ b. record p { borrowable = some b })
take_key year_from v p = with (bounded 9999 v) (λ n. record p { year_from = some n })
take_key year_to v p = with (bounded 9999 v) (λ n. record p { year_to = some n })
take_key sort v p = with (sort_order v) (λ s. record p { sort = s })
take_key page v p = with (bounded 1_000_000 v) (λ n. record p { page = n })
take_key per_page v p = with (bounded 100 v) (λ n. record p { limit = n })
take_key no_key v p = none

-- Exactly one value, and not blank.
abbrev pub only_value : List (List ℕ) → Option (List ℕ)
only_value (v ∷ []) = if length (trim_space v) == 0 then none else some (trim_space v)
only_value _ = none

unfoldable pub take_values : List ℕ → List (List ℕ) → SearchParams → Option SearchParams
take_values key values p = elim (only_value values) [
  | none ↦ none
  | some v ↦ take_key (key_of key) v p
]

unfoldable pub take_all_keys : List (List ℕ × List (List ℕ)) → SearchParams → Option SearchParams
take_all_keys [] p = some p
take_all_keys ((key, values) ∷ rest) p = elim (take_values key values p) [
  | none ↦ none
  | some p' ↦ take_all_keys rest p'
]

abbrev pub years_in_order : Option ℕ → Option ℕ → Bool
years_in_order (some a) (some b) = leb a b
years_in_order _ _ = true

abbrev pub conclude : Option SearchParams → Result Error SearchParams
conclude none = err invalid_search
conclude (some p) =
    if years_in_order p.year_from p.year_to
    then ok (record p { offset = (p.page - 1) * p.limit })
    else err invalid_search

-- ParseCatalogueQuery
unfoldable pub parse_catalogue_query : List (List ℕ × List (List ℕ)) → Result Error SearchParams
parse_catalogue_query query = conclude (take_all_keys query defaults)

abbrev bool_text : Bool → List ℕ
bool_text true = codes "true"
bool_text false = codes "false"

abbrev minus : List ℕ → List ℕ
minus s = b'-' ∷ s

-- A value of a saved query as the text that a search would carry.
unfoldable pub saved_value : Key → Json → Option (List ℕ)
saved_value available (bool_value b) = some (bool_text b)
saved_value borrowable (bool_value b) = some (bool_text b)
saved_value year_from (number n) = some (itoa n)
saved_value year_to (number n) = some (itoa n)
saved_value page (number n) = some (itoa n)
saved_value per_page (number n) = some (itoa n)
saved_value year_from (negative n) = some (minus (itoa n))
saved_value year_to (negative n) = some (minus (itoa n))
saved_value page (negative n) = some (minus (itoa n))
saved_value per_page (negative n) = some (minus (itoa n))
saved_value available _ = none
saved_value borrowable _ = none
saved_value year_from _ = none
saved_value year_to _ = none
saved_value page _ = none
saved_value per_page _ = none
saved_value _ (text_value s) = some s
saved_value _ _ = none

unfoldable pub saved_values : List (List ℕ × Json) → Option (List (List ℕ × List (List ℕ)))
saved_values [] = some []
saved_values ((key, value) ∷ rest) = elim (saved_value (key_of key) value) [
  | none ↦ none
  | some s ↦ elim (saved_values rest) [ none ↦ none | some query ↦ some ((key, s ∷ []) ∷ query) ]
]

abbrev pub checked : Option (List (List ℕ × List (List ℕ))) → Option Error
checked none = some invalid_search
checked (some query) = elim (parse_catalogue_query query) [ ok _ ↦ none | err e ↦ some e ]

-- ValidateSavedQuery, on a query that is not nil.
unfoldable pub validate_saved_query : List (List ℕ × Json) → Option Error
validate_saved_query query = checked (saved_values query)
