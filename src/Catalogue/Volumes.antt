-- ===== src/Catalogue/Volumes.antt =====
-- AddCopy and Archive of internal/service/catalogue_service.go and internal/repository/postgres/
-- catalogue_repo.go, and what a new volume does to the books' and the loans' agreement.
use holibrary_backend.Prelude.{
  ℕ, ◌+◌, ◌==◌, ==_iff, ◌≡◌, ap, Bool, not, Option, none, some, List, ◌∷◌, ok, err, if◌then◌else◌,
  is_some, text_eq, trim_space, find_where, count_where, update_where, arith,
}
use holibrary_backend.Domain.{
  Copy, LoanPolicy, circulating, available, not_found, conflict, duplicate_accession,
}
use holibrary_backend.Domain.Books.{archived}
use holibrary_backend.Db.{Db, Tx, Action, transact, record_audit, book_archived, copy_added}
use holibrary_backend.Circulation.Copies.{has_id}
use holibrary_backend.Circulation.Consistency.{IsConsistent}
use holibrary_backend.Readers.Bookmarks.{has_book_id}
use holibrary_backend.Catalogue.Metadata.{no_text}

-- CatalogueRepo.ArchiveBook, which CatalogueService.Archive passes on
unfoldable pub archive_book : ℕ → ℕ → Tx (Unit {0})
archive_book i staff db =
    if count_where (has_book_id i) db.books == 0
    then err not_found
    else ok (
      tt,
      record_audit staff book_archived i (record db {
        books = update_where (has_book_id i) (λ b. record b { status = archived }) db.books;
      }),
    )

abbrev new_copy : ℕ → ℕ → List ℕ → LoanPolicy → Copy
new_copy i book accession policy = record {
  id = i;
  book_id = book;
  accession_number = accession;
  loan_policy = policy;
  status = available;
}

abbrev has_accession : List ℕ → Copy → Bool
has_accession a c = text_eq c.accession_number a

-- CatalogueRepo.AddCopy
unfoldable pub insert_copy : ℕ → List ℕ → LoanPolicy → ℕ → Tx Copy
insert_copy book accession policy staff db =
    let c = new_copy db.next_id book (trim_space accession) policy in
    if is_some (find_where (has_accession (trim_space accession)) db.copies)
    then err duplicate_accession
    else if not (is_some (find_where (has_book_id book) db.books))
    then err conflict
    else ok (
      c,
      record_audit staff copy_added c.id
          (record db { copies = c ∷ db.copies; next_id = db.next_id + 1 }),
    )

abbrev policy_or : Option LoanPolicy → LoanPolicy
policy_or none = circulating
policy_or (some p) = p

-- CatalogueService.AddCopy; a policy that is left out is `none`.
unfoldable pub add_copy : ℕ → List ℕ → Option LoanPolicy → ℕ → Action Copy
add_copy book accession policy staff db =
    if no_text (trim_space accession)
    then (err duplicate_accession, db)
    else transact (insert_copy book accession (policy_or policy) staff) db

-- A volume that is added, under an id that no volume has, leaves every id with at most one volume, and
-- each volume on loan exactly where a loan of it is open.
pub add_copy-IsConsistent :
    (book : ℕ) (accession : List ℕ) (policy : Option LoanPolicy) (staff : ℕ) (db : Db)
    → count_where (has_id db.next_id) db.copies ≡ 0
    → IsConsistent db
    → IsConsistent (add_copy book accession policy staff db).1
unfolding add_copy insert_copy record_audit count_where
add_copy-IsConsistent book accession policy staff db z v = record {
  one_row = λ i.
      ground
        (arith, z, ==_iff db.next_id i, ap (λ j. count_where (has_id j) db.copies), v.one_row i);
  one_loan = λ i. ground (arith, v.one_loan i);
  fresh = λ i h. ground (arith, h, v.fresh i);
  agree = λ i. ground (arith, v.agree i);
}
