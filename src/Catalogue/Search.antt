-- ===== src/Catalogue/Search.antt =====
-- Search of internal/service/catalogue_service.go and internal/repository/postgres/catalogue_repo.go, with
-- bookPage, the counts of availabilitySelect, and the expressions for wing and borrowable copies. The
-- engine's full-text search, the order of titles under its collation, and `arrange`, which puts the rows
-- of a request in the order asked for, are parameters: rows that tie may come either way round, and
-- another way in the next request, which the first argument of `arrange` tells apart. OnlyAvailable is
-- left out, since ParseCatalogueQuery never sets it. A book's class is one letter.
use holibrary_backend.Prelude.{
  ℕ, ◌-◌, ◌==◌, leb, ltb, Bool, true, false, ◌&&◌, ◌||◌, not, Option, none, some, List, [], ◌∷◌,
  ◌++◌, if◌then◌else◌, codes, text_eq, to_lower, trim_space, count_where, select_where, take, drop,
}
use holibrary_backend.Domain.{Copy, status_eq, withdrawn, on_loan, available}
use holibrary_backend.Domain.Books.{Book, BookStatus, active, archived}
use holibrary_backend.Domain.Retention.{Availability}
use holibrary_backend.Circulation.Copies.{policy_circulating, in_stock, on_the_shelf}
use holibrary_backend.Search.Numbers.{to_upper}
use holibrary_backend.Search.Values.{SortOrder, relevance, newest, oldest, title_order}
use holibrary_backend.Search.Query.{SearchParams}

pub record TextSearch : Type 0 where
  pub found : List ℕ → Book → Bool
  pub rank : List ℕ → Book → ℕ
  pub title_before : List ℕ → List ℕ → Bool
  pub arrange : ℕ → (Book → Book → Bool) → List Book → List Book

abbrev is_listed_book : BookStatus → Bool
is_listed_book active = true
is_listed_book archived = false

unfoldable any_suffix : (List ℕ → Bool) → List ℕ → Bool
any_suffix f [] = f []
any_suffix f (c ∷ s) = f (c ∷ s) || any_suffix f s

-- Whether the text begins with a code point, given the test of what follows it.
abbrev one_more : (ℕ → Bool) → (List ℕ → Bool) → List ℕ → Bool
one_more same f [] = false
one_more same f (c ∷ s) = same c && f s

-- LIKE: % stands for any text, _ for one character, and what follows a backslash for itself. The first
-- argument is whether a backslash has just been read.
unfoldable pub like : Bool → List ℕ → List ℕ → Bool
unfolding any_suffix
like esc [] [] = not esc
like esc [] (c ∷ s) = false
like true (x ∷ p) s = let rest = like false p in one_more (λ c. c == x) rest s
like false (x ∷ p) s =
    let rest = like false p in
    let literal = like true p s in
    if x == b'%'
    then any_suffix rest s
    else if x == b'_'
    then one_more (λ c. true) rest s
    else if x == 92
    then literal
    else one_more (λ c. c == x) rest s

unfoldable pub ilike : List ℕ → List ℕ → Bool
unfolding like
ilike s pattern = like false (to_lower pattern) (to_lower s)

unfoldable pub contains_text : List ℕ → List ℕ → Bool
unfolding ilike
contains_text s part = ilike s (codes "%" ++ part ++ codes "%")

unfoldable pub any_contains : List (List ℕ) → List ℕ → Bool
any_contains [] part = false
any_contains (s ∷ ss) part = contains_text s part || any_contains ss part

-- wingExpression
unfoldable pub wing_expression : List ℕ → List ℕ
wing_expression (c ∷ []) =
    if leb b'A' c && leb c b'J'
    then codes "South"
    else if leb b'K' c && leb c b'Z'
    then codes "North"
    else codes "Unknown"
wing_expression _ = codes "Unknown"

-- borrowableExpression; greatest(n - 1, 0) is subtraction on the naturals.
unfoldable pub borrowable_expression : List Copy → Book → ℕ
borrowable_expression copies b =
    if ltb (count_where (in_stock b.id) copies) 2
    then count_where (on_the_shelf b.id) copies
    else count_where (on_the_shelf b.id) copies - 1

-- The counts of availabilitySelect.
unfoldable pub availability : List Copy → Book → Availability
availability copies b = record {
  total_copies = count_where (λ c. c.book_id == b.id && not (status_eq c.status withdrawn)) copies;
  available = count_where (on_the_shelf b.id) copies;
  on_loan = count_where (λ c. c.book_id == b.id && status_eq c.status on_loan) copies;
  not_for_loan =
      count_where
        (λ c.
          c.book_id == b.id
          && status_eq c.status available
          && not (policy_circulating c.loan_policy))
        copies;
  stock = count_where (in_stock b.id) copies;
}

abbrev blank_or : List ℕ → Bool → Bool
blank_or s test = text_eq s [] || test

abbrev pub agrees : Option Bool → Bool → Bool
agrees none b = true
agrees (some w) b = if w then b else not b

abbrev from_year : Option ℕ → Option ℕ → Bool
from_year none year = true
from_year (some y) none = false
from_year (some y) (some year) = leb y year

abbrev to_year : Option ℕ → Option ℕ → Bool
to_year none year = true
to_year (some y) none = false
to_year (some y) (some year) = leb year y

abbrev no_dashes : List ℕ → List ℕ
no_dashes = select_where (λ c. not (c == b'-'))

abbrev has_isbn : List ℕ → Book → Bool
has_isbn s b = blank_or s (text_eq b.isbn13 s || text_eq b.isbn10 s)

-- searchWhere: the tests on the text of a record, and then the others.
unfoldable pub text_matches : TextSearch → SearchParams → Book → Bool
unfolding contains_text
text_matches x p b =
    blank_or p.query (x.found p.query b)
    && blank_or p.title (contains_text b.title p.title)
    && blank_or p.author (any_contains b.authors p.author)
    && blank_or p.subject (any_contains b.subjects p.subject)
    && has_isbn (no_dashes p.isbn) b
    && blank_or p.call_number (ilike b.call_number (p.call_number ++ codes "%"))
    && blank_or p.lcc_class (text_eq b.lcc_class p.lcc_class)

unfoldable pub search_where : TextSearch → SearchParams → List Copy → Book → Bool
unfolding text_matches
search_where x p copies b =
    is_listed_book b.status
    && text_matches x p b
    && agrees p.available (ltb 0 (borrowable_expression copies b))
    && agrees p.borrowable (ltb 0 (borrowable_expression copies b))
    && blank_or p.faculty (text_eq (to_lower b.faculty) (to_lower p.faculty))
    && blank_or p.department (text_eq (to_lower b.department) (to_lower p.department))
    && blank_or p.language (text_eq (to_lower b.language) (to_lower p.language))
    && blank_or p.wing (text_eq (wing_expression b.lcc_class) p.wing)
    && from_year p.year_from b.published_year
    && to_year p.year_to b.published_year

unfoldable pub by_title : TextSearch → Book → Book → Bool
by_title x a b =
    if x.title_before a.title b.title
    then true
    else if x.title_before b.title a.title
    then false
    else ltb a.id b.id

-- Newest first with a missing year last, or oldest first with a missing year last.
unfoldable pub by_year : Bool → Option ℕ → Option ℕ → Bool → Bool
by_year desc none none tie = tie
by_year desc none (some y) tie = false
by_year desc (some y) none tie = true
by_year desc (some y) (some z) tie = if y == z then tie else if desc then ltb z y else ltb y z

-- The ORDER BY of Search.
unfoldable pub order_by : TextSearch → List ℕ → SortOrder → Book → Book → Bool
order_by x query relevance a b =
    if x.rank query a == x.rank query b
    then by_title x a b
    else ltb (x.rank query b) (x.rank query a)
order_by x query newest a b = by_year true a.published_year b.published_year (by_title x a b)
order_by x query oldest a b = by_year false a.published_year b.published_year (by_title x a b)
order_by x query title_order a b = by_title x a b

unfoldable pub search_order : TextSearch → SearchParams → Book → Book → Bool
unfolding order_by
search_order x p = order_by x p.query p.sort

-- bookPage: the page and the count of all that match, from one snapshot.
unfoldable pub book_page :
    TextSearch → ℕ → (Book → Bool) → (Book → Book → Bool) → ℕ → ℕ → List Book → List Book × ℕ
book_page x request where_ order limit offset books = (
  take limit (drop offset (x.arrange request order (select_where where_ books))),
  count_where where_ books,
)

-- Search of the repository, and of the service.
unfoldable pub search_rows : TextSearch → ℕ → SearchParams → List Copy → List Book → List Book × ℕ
unfolding book_page search_where search_order
search_rows x request p copies books =
    book_page x request (search_where x p copies) (search_order x p) p.limit p.offset books

abbrev pub bounded_page : SearchParams → SearchParams
bounded_page p = record p {
  limit = if p.limit == 0 || ltb 100 p.limit then 20 else p.limit;
  lcc_class = to_upper (trim_space p.lcc_class);
}

unfoldable pub search : TextSearch → ℕ → SearchParams → List Copy → List Book → List Book × ℕ
unfolding search_rows
search x request p copies books = search_rows x request (bounded_page p) copies books
