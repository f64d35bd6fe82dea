-- ===== src/Catalogue/NewBooks.antt =====
-- CreateBook of internal/service/catalogue_service.go and internal/repository/postgres/catalogue_repo.go. The
-- row that is inserted is what the validated values make of an empty one.
use holibrary_backend.Prelude.{
  ℕ, ◌+◌, not, Option, none, some, List, [], ◌∷◌, Result, ok, err, if◌then◌else◌, trim_space,
}
use holibrary_backend.Domain.{Error, duplicate_isbn, invalid_call_number}
use holibrary_backend.Domain.Books.{Book, active}
use holibrary_backend.Db.{Tx, Action, transact, record_audit, book_created}
use holibrary_backend.Search.Numbers.{to_upper}
use holibrary_backend.Catalogue.Metadata.{
  BookPatch, validate_book_metadata, is_call_number, no_text,
}
use holibrary_backend.Catalogue.Books.{isbn_taken, patched}

-- CatalogueRepo.CreateBook, on the row that it inserts.
unfoldable pub insert_book : ℕ → Book → Tx Book
insert_book staff b db =
    if isbn_taken b.id b.isbn13 db
    then err duplicate_isbn
    else ok (
      b,
      record_audit staff book_created b.id
          (record db { books = b ∷ db.books; next_id = db.next_id + 1 }),
    )

-- CreateBookParams; `published_year` may be left out.
pub record NewBook : Type 0 where
  pub title : List ℕ
  pub subtitle : List ℕ
  pub isbn13 : List ℕ
  pub isbn10 : List ℕ
  pub publisher : List ℕ
  pub place_of_publication : List ℕ
  pub published_year : Option ℕ
  pub call_number : List ℕ
  pub description : List ℕ
  pub edition : List ℕ
  pub language : List ℕ
  pub faculty : List ℕ
  pub department : List ℕ
  pub authors : List (List ℕ)
  pub subjects : List (List ℕ)

-- The patch that CreateBook hands to validateBookMetadata.
abbrev pub whole : NewBook → BookPatch
whole n = record {
  title = some n.title;
  subtitle = some n.subtitle;
  isbn13 = some n.isbn13;
  isbn10 = some n.isbn10;
  publisher = some n.publisher;
  place_of_publication = some n.place_of_publication;
  call_number = some n.call_number;
  edition = some n.edition;
  language = some n.language;
  description = some n.description;
  faculty = some n.faculty;
  department = some n.department;
  published_year = n.published_year;
  authors = some n.authors;
  subjects = some n.subjects;
}

abbrev pub empty_book : ℕ → Book
empty_book i = record {
  id = i;
  title = [];
  subtitle = [];
  isbn13 = [];
  isbn10 = [];
  publisher = [];
  place_of_publication = [];
  published_year = none;
  call_number = [];
  lcc_class = [];
  status = active;
  description = [];
  edition = [];
  language = [];
  faculty = [];
  department = [];
  authors = [];
  subjects = [];
}

abbrev pub then_insert : ℕ → Result Error BookPatch → Action Book
then_insert staff (err e) db = (err e, db)
then_insert staff (ok p) db = transact (insert_book staff (patched p (empty_book db.next_id))) db

-- CatalogueService.CreateBook
unfoldable pub create_book : NewBook → ℕ → ℕ → Action Book
create_book n staff this_year db =
    if no_text (trim_space n.title)
    then (err invalid_call_number, db)
    else if not (is_call_number (to_upper (trim_space n.call_number)))
    then (err invalid_call_number, db)
    else then_insert staff (validate_book_metadata this_year (whole n)) db
