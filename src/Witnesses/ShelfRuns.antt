-- ===== src/Witnesses/ShelfRuns.antt =====
-- Searches of a catalogue of three books.
use Prim.Native.String.{String}
use holibrary_backend.Prelude.{
  find_where, Bool-cases, inl, inr, ◌==◌, ℕ, ◌*◌, ◌≤◌, ◌≡◌, refl, true, false, some, List, [], ◌∷◌,
  codes, ltb, count_where, select_where, sort_by, insert_by, text_eq, to_lower, arith,
}
use holibrary_backend.Domain.Books.{Book, archived}
use holibrary_backend.Domain.Retention.{is_available}
use holibrary_backend.Search.Values.{title_order}
use holibrary_backend.Search.Query.{SearchParams, defaults}
use holibrary_backend.Catalogue.NewBooks.{empty_book}
use holibrary_backend.Catalogue.Search.{
  by_title, search_order, borrowable_expression, TextSearch, like, ilike, availability,
  search_where, search_rows, search_order,
}
use holibrary_backend.Catalogue.SearchLaws.{
  first_pages, search_pages, search_borrowable, matching, arranged,
}
use holibrary_backend.Catalogue.Arrangements.{IsOrdered, IsArrangement, SameRows, HasKeys}
use holibrary_backend.Witnesses.Fixtures.{library}

-- A toy engine: nothing is found by its text, and titles are ordered by their first letter.
abbrev first_letter : List ℕ → ℕ
first_letter [] = 0
first_letter (c ∷ s) = c

abbrev toy_engine : TextSearch
toy_engine = record {
  found = λ query b. false;
  rank = λ query b. 0;
  title_before = λ s t. ltb (first_letter s) (first_letter t);
  arrange = λ request order rows. sort_by order rows;
}

abbrev titled : ℕ → String → Book
titled i s = record (empty_book i) { title = codes s; lcc_class = codes "Q" }

abbrev shelf : List Book
shelf =
    titled 11 "Sets"
    ∷ titled 10 "Algebra"
    ∷ record (titled 12 "Old sets") { status = archived }
    ∷ []

abbrev wanted : SearchParams
wanted = record defaults { title = codes "e"; sort = title_order; limit = 1 }

patterns :
    (ilike (codes "Set theory") (codes "set%") ≡ true)
    × (ilike (codes "Set theory") (codes "s_t%y") ≡ true)
    × (ilike (codes "Set theory") (codes "theory%") ≡ false)
    × (ilike (codes "100%") (codes "%0\\%") ≡ true)
unfolding ilike to_lower
patterns = (refl, refl, refl, refl)

first_page : search_rows toy_engine 0 wanted library.copies shelf ≡ (titled 10 "Algebra" ∷ [], 2)
unfolding search_rows select_where sort_by insert_by count_where like to_lower text_eq
    borrowable_expression by_title
first_page = refl

two_match : count_where (search_where toy_engine wanted library.copies) shelf ≤ 2 * wanted.limit
unfolding search_where count_where like to_lower text_eq select_where borrowable_expression
two_match = omega arith

abbrev found : List Book
found = titled 11 "Sets" ∷ titled 10 "Algebra" ∷ []

found-eq : matching toy_engine wanted library.copies shelf ≡ found
unfolding matching search_where count_where like to_lower text_eq select_where borrowable_expression
found-eq = refl

abbrev sorted : List Book
sorted = titled 10 "Algebra" ∷ titled 11 "Sets" ∷ []

sorted-eq : (request : ℕ) → arranged toy_engine wanted library.copies shelf request ≡ sorted
unfolding arranged matching search_where count_where like to_lower text_eq select_where
    borrowable_expression search_order sort_by insert_by by_title
sorted-eq request = refl

in_order : IsOrdered (search_order toy_engine wanted) sorted
unfolding IsOrdered search_order count_where by_title
in_order = (refl, (refl, tt))

sorted-IsArrangement : IsArrangement (search_order toy_engine wanted) found sorted
unfolding count_where find_where
sorted-IsArrangement = record {
  same = record {
    counts = λ i. ground arith;
    rows = λ i. elim (Bool-cases (10 == i)) [ inl t ↦ ground arith | inr f ↦ ground arith ];
  };
  all = refl;
  ordered = in_order;
}

shelf-HasKeys : HasKeys shelf
unfolding HasKeys count_where
shelf-HasKeys i = ground arith

engine_sorts :
    (request : ℕ)
    → IsArrangement
        (search_order toy_engine wanted)
        (matching toy_engine wanted library.copies shelf)
        (arranged toy_engine wanted library.copies shelf request)
engine_sorts request = rw found-eq (rw (sorted-eq request) sorted-IsArrangement)

search_pages_example :
    SameRows
      (first_pages toy_engine wanted library.copies shelf 2)
      (matching toy_engine wanted library.copies shelf)
    × ((request o : ℕ)
        → (search_rows toy_engine request (record wanted { offset = o }) library.copies shelf).1
          ≡ count_where (search_where toy_engine wanted library.copies) shelf)
search_pages_example =
    search_pages toy_engine wanted library.copies shelf shelf-HasKeys engine_sorts 2 two_match

abbrev lendable : SearchParams
lendable = record wanted { borrowable = some true }

algebra_found : search_where toy_engine lendable library.copies (titled 10 "Algebra") ≡ true
unfolding search_where count_where like to_lower text_eq select_where borrowable_expression
algebra_found = refl

search_borrowable_example : is_available (availability library.copies (titled 10 "Algebra")) ≡ true
search_borrowable_example =
    search_borrowable toy_engine lendable library.copies (titled 10 "Algebra") true refl
      algebra_found
