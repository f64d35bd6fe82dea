-- ===== src/Catalogue/Books.antt =====
-- UpdateBook of internal/service/book_metadata.go and internal/repository/postgres/book_edit_repo.go, with
-- linkAuthors and linkSubjects of catalogue_repo.go. A title's subjects are kept in the order of
-- text, in which they are read, and lcc_class is the first letter of the class mark.
use holibrary_backend.Prelude.{
  ℕ, ◌==◌, Bool, true, false, ◌&&◌, ◌||◌, not, Option, none, some, List, [], ◌∷◌, Result, ok, err,
  if◌then◌else◌, is_some, text_eq, trim_space, find_where, update_where, take, sort_by,
}
use holibrary_backend.Domain.{
  Error, unauthenticated, not_found, duplicate_isbn, invalid_call_number,
}
use holibrary_backend.Domain.Books.{Book}
use holibrary_backend.Db.{Db, Tx, Action, transact, record_audit, book_metadata_updated}
use holibrary_backend.Migrations.Apply.{text_before}
use holibrary_backend.Search.Numbers.{to_upper}
use holibrary_backend.Readers.Bookmarks.{has_book_id}
use holibrary_backend.Catalogue.Metadata.{BookPatch, validate_book_metadata, is_among, no_text}

abbrev pub texts_eq : List (List ℕ) → List (List ℕ) → Bool
texts_eq [] [] = true
texts_eq (s ∷ ss) (t ∷ ts) = text_eq s t && texts_eq ss ts
texts_eq _ _ = false

abbrev differs : List ℕ → Option (List ℕ) → Bool
differs before none = false
differs before (some v) = not (text_eq v before)

abbrev year_differs : Option ℕ → Option ℕ → Bool
year_differs before none = false
year_differs none (some y) = true
year_differs (some x) (some y) = not (y == x)

abbrev authors_differ : List (List ℕ) → Option (List (List ℕ)) → Bool
authors_differ before none = false
authors_differ before (some vs) = not (texts_eq vs before)

abbrev subjects_differ : List (List ℕ) → Option (List (List ℕ)) → Bool
subjects_differ before none = false
subjects_differ before (some vs) =
    not (texts_eq (sort_by text_before vs) (sort_by text_before before))

-- len(changed) > 0
unfoldable pub changes : Book → BookPatch → Bool
changes b p =
    differs b.title p.title
    || differs b.subtitle p.subtitle
    || differs b.isbn13 p.isbn13
    || differs b.isbn10 p.isbn10
    || differs b.publisher p.publisher
    || differs b.place_of_publication p.place_of_publication
    || differs b.call_number p.call_number
    || differs b.edition p.edition
    || differs b.language p.language
    || differs b.description p.description
    || differs b.faculty p.faculty
    || differs b.department p.department
    || year_differs b.published_year p.published_year
    || authors_differ b.authors p.authors
    || subjects_differ b.subjects p.subjects

-- linkAuthors and linkSubjects: trimmed, without blanks, and each once.
unfoldable pub linked : List (List ℕ) → List (List ℕ) → List (List ℕ)
linked seen [] = []
linked seen (v ∷ vs) =
    let t = trim_space v in
    let skipped = linked seen vs in
    let kept = t ∷ linked (t ∷ seen) vs in if no_text t || is_among t seen then skipped else kept

abbrev or_before {ℓ} : {A : Type ℓ} → A → Option A → A
or_before before none = before
or_before before (some v) = v

abbrev year_or : Option ℕ → Option ℕ → Option ℕ
year_or before none = before
year_or before (some y) = some y

abbrev class_of : List ℕ → List ℕ
class_of v = take 1 (to_upper (trim_space v))

abbrev class_or : List ℕ → Option (List ℕ) → List ℕ
class_or before none = before
class_or before (some v) = class_of v

abbrev authors_or : List (List ℕ) → Option (List (List ℕ)) → List (List ℕ)
authors_or before none = before
authors_or before (some vs) = if texts_eq vs before then before else linked [] vs

abbrev subjects_or : List (List ℕ) → Option (List (List ℕ)) → List (List ℕ)
subjects_or before none = before
subjects_or before (some vs) =
    if subjects_differ before (some vs) then sort_by text_before (linked [] vs) else before

-- The row after the UPDATE.
unfoldable pub patched : BookPatch → Book → Book
patched p b = record b {
  title = or_before b.title p.title;
  subtitle = or_before b.subtitle p.subtitle;
  isbn13 = or_before b.isbn13 p.isbn13;
  isbn10 = or_before b.isbn10 p.isbn10;
  publisher = or_before b.publisher p.publisher;
  place_of_publication = or_before b.place_of_publication p.place_of_publication;
  published_year = year_or b.published_year p.published_year;
  call_number = or_before b.call_number p.call_number;
  lcc_class = class_or b.lcc_class p.call_number;
  edition = or_before b.edition p.edition;
  language = or_before b.language p.language;
  description = or_before b.description p.description;
  faculty = or_before b.faculty p.faculty;
  department = or_before b.department p.department;
  authors = authors_or b.authors p.authors;
  subjects = subjects_or b.subjects p.subjects;
}

-- books_isbn13_unique, for the row of this id: another row has the number, and it is not NULL.
abbrev pub bears_isbn : List ℕ → Book → Bool
bears_isbn isbn b = not (no_text isbn) && text_eq b.isbn13 isbn

unfoldable pub isbn_taken : ℕ → List ℕ → Db → Bool
isbn_taken i isbn db = is_some (find_where (λ b. not (b.id == i) && bears_isbn isbn b) db.books)

abbrev pub blank_mark : Option (List ℕ) → Bool
blank_mark none = false
blank_mark (some v) = no_text (trim_space v)

-- CatalogueRepo.UpdateBook
unfoldable pub patch_book : ℕ → BookPatch → ℕ → Tx Book
patch_book i p staff db = elim (find_where (has_book_id i) db.books) [
  | none ↦ err not_found
  | some b ↦
      if not (changes b p)
      then ok (b, db)
      else if blank_mark p.call_number
      then err invalid_call_number
      else if isbn_taken i (patched p b).isbn13 db
      then err duplicate_isbn
      else ok (
        patched p b,
        record_audit staff book_metadata_updated i
            (record db { books = update_where (has_book_id i) (patched p) db.books }),
      )
]

abbrev pub then_patch : ℕ → ℕ → Result Error BookPatch → Action Book
then_patch i staff (err e) db = (err e, db)
then_patch i staff (ok p) db = transact (patch_book i p staff) db

-- CatalogueService.UpdateBook
unfoldable pub update_book : ℕ → BookPatch → ℕ → ℕ → Action Book
update_book i p staff this_year db =
    if staff == 0
    then (err unauthenticated, db)
    else then_patch i staff (validate_book_metadata this_year p) db
