-- ===== src/Witnesses/ReaderRuns.antt =====
-- Bookmarks and saved searches of the two members, and two titles with one ISBN.
use holibrary_backend.Prelude.{
  ℕ, ◌≤◌, ◌≡◌, refl, false, none, some, List, [], ◌∷◌, codes, count_where, text_eq, arith,
}
use holibrary_backend.Domain.Books.{Book, number}
use holibrary_backend.Db.{Db}
use holibrary_backend.Readers.Bookmarks.{is_bookmarked}
use holibrary_backend.Readers.BookmarkLaws.{
  Call, save, forget, run, replay, is_known, saved, run_refines,
}
use holibrary_backend.Readers.SavedSearches.{of_user}
use holibrary_backend.Readers.SavedSearchLaws.{
  SearchCall, create_call, delete_call, perform_all, perform_all-limit,
}
use holibrary_backend.Catalogue.Metadata.{BookPatch}
use holibrary_backend.Catalogue.Books.{update_book, bears_isbn}
use holibrary_backend.Catalogue.NewBooks.{NewBook, create_book, empty_book}
use holibrary_backend.Catalogue.BookLaws.{IsCatalogue, books-IsCatalogue}
use holibrary_backend.Witnesses.Fixtures.{library}

abbrev shelf_ten : Book
shelf_ten = record (empty_book 10) { isbn13 = codes "9780132350884" }

abbrev shelved : Db
shelved = record library { books = shelf_ten ∷ empty_book 11 ∷ [] }

abbrev calls : List (ℕ × Call)
calls =
    (1, save 7 10)
    ∷ (2, save 7 10)
    ∷ (3, save 8 11)
    ∷ (4, save 7 99)
    ∷ (5, forget 7 11)
    ∷ (6, forget 8 11)
    ∷ []

run_refines_example :
    (λ u t. is_bookmarked u t (run calls shelved)) ≡ replay (is_known shelved) calls (saved shelved)
run_refines_example = run_refines calls shelved

abbrev searches : List SearchCall
searches =
    create_call 7 (codes "mine") (some ((codes "page", number 2) ∷ [])) 1
    ∷ delete_call 100 8
    ∷ create_call 7 (codes "none") none 2
    ∷ []

no_searches : count_where (of_user 7) library.saved_searches ≤ 20
unfolding count_where
no_searches = omega arith

perform_all-limit_example :
    count_where (of_user 7) (perform_all searches library).saved_searches ≤ 20
perform_all-limit_example = perform_all-limit searches 7 library no_searches

blank_bears : (isbn : List ℕ) → bears_isbn isbn (empty_book 11) ≡ false
unfolding text_eq
blank_bears [] = refl
blank_bears (c ∷ s) = ground arith

shelved-IsCatalogue : IsCatalogue shelved
unfolding count_where
shelved-IsCatalogue = record {
  one_row = λ i. ground arith;
  fresh = λ i h. ground (arith, h);
  one_title = λ isbn. ground (arith, blank_bears isbn);
}

abbrev same_isbn : BookPatch
same_isbn = record {
  title = none;
  subtitle = none;
  isbn13 = some (codes "978-0-13-235088-4");
  isbn10 = none;
  publisher = none;
  place_of_publication = none;
  call_number = none;
  edition = none;
  language = none;
  description = none;
  faculty = none;
  department = none;
  published_year = none;
  authors = none;
  subjects = none;
}

abbrev again : NewBook
again = record {
  title = codes "Clean Code";
  subtitle = [];
  isbn13 = codes "9780132350884";
  isbn10 = [];
  publisher = [];
  place_of_publication = [];
  published_year = some 2008;
  call_number = codes "QA76.76";
  description = [];
  edition = [];
  language = [];
  faculty = [];
  department = [];
  authors = codes "Martin" ∷ [];
  subjects = [];
}

books-IsCatalogue_example :
    IsCatalogue (update_book 11 same_isbn 9 2026 shelved).1
    × IsCatalogue (create_book again 9 2026 shelved).1
books-IsCatalogue_example = books-IsCatalogue 11 same_isbn again 9 2026 shelved shelved-IsCatalogue
